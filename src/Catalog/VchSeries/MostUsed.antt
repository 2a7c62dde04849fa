-- ===== src/Catalog/VchSeries/MostUsed.antt =====
-- The series of a branch is the one that most of its vouchers use.
use fembin.Base.{
  ℕ, ◌+◌, ◌≤◌, ◌≡◌, ◌≢◌, Text, text_eq, text_eq_iff, sym, ◌∙◌, Option-cases, inl, inr, Option, none,
  some, List, [], ◌∷◌, arith, if◌then◌else◌,
}
use fembin.Base.Dict.{lookup, insert, lookup-insert}
use fembin.Busy.Rowset.{Row}
use fembin.Catalog.VchSeries.{
  series_code, Counts, count_of, count_code, count_rows, max_key, winning_series_code,
}

-- how many rows carry the code
abbrev pub occurrences : Text → List Row → ℕ
occurrences code [] = 0
occurrences code (row ∷ rows) =
    (if text_eq (series_code row) code then 1 else 0) + occurrences code rows

count_of-insert :
    (c d : Text) (n : ℕ) (counts : Counts)
    → count_of c (insert d n counts) ≡ (if text_eq d c then n else count_of c counts)
unfolding count_of
count_of-insert c d n counts = ground (arith, lookup-insert d c n counts)

count_of-count_code :
    (c d : Text) (counts : Counts)
    → c ≢ []
    → count_of c (count_code d counts) ≡ count_of c counts + (if text_eq d c then 1 else 0)
unfolding count_code
count_of-count_code c [] counts h = ground (arith, text_eq_iff [] c)
count_of-count_code c (x ∷ d) counts h =
    ground
      (arith, count_of-insert c (x ∷ d) (count_of (x ∷ d) counts + 1) counts, text_eq_iff (x ∷ d) c)

count_of-count_code_le :
    (c d : Text) (counts : Counts)
    → count_of c (count_code d counts) ≤ count_of c counts + (if text_eq d c then 1 else 0)
unfolding count_code
count_of-count_code_le c [] counts = ground arith
count_of-count_code_le c (x ∷ d) counts =
    ground
      (arith, count_of-insert c (x ∷ d) (count_of (x ∷ d) counts + 1) counts, text_eq_iff (x ∷ d) c)

count_of-count_rows :
    (c : Text) (rows : List Row) (counts : Counts)
    → c ≢ []
    → count_of c (count_rows counts rows) ≡ count_of c counts + occurrences c rows
unfolding count_rows
count_of-count_rows c [] counts h = omega arith
count_of-count_rows c (row ∷ rows) counts h = omega (
  arith,
  count_of-count_rows c rows (count_code (series_code row) counts) h,
  count_of-count_code c (series_code row) counts h,
)

count_of-count_rows_le :
    (c : Text) (rows : List Row) (counts : Counts)
    → count_of c (count_rows counts rows) ≤ count_of c counts + occurrences c rows
unfolding count_rows
count_of-count_rows_le c [] counts = omega arith
count_of-count_rows_le c (row ∷ rows) counts = omega (
  arith,
  count_of-count_rows_le c rows (count_code (series_code row) counts),
  count_of-count_code_le c (series_code row) counts,
)

max_key-best :
    (counts : Counts) (rest : List (Text × ℕ)) (best : Text)
    → count_of best counts ≤ count_of (max_key counts best rest) counts
unfolding max_key
max_key-best counts [] best = omega arith
max_key-best counts ((code, n) ∷ rest) best =
    ground (arith, max_key-best counts rest code, max_key-best counts rest best)

max_key-largest :
    (counts : Counts) (c : Text) (n : ℕ) (rest : List (Text × ℕ)) (best : Text)
    → lookup c rest ≡ some n
    → count_of c counts ≤ count_of (max_key counts best rest) counts
unfolding max_key lookup
max_key-largest counts c n [] best h = absurd (ground arith)
max_key-largest counts c n ((code, m) ∷ rest) best h = ground (
  arith,
  text_eq_iff code c,
  max_key-best counts rest code,
  max_key-best counts rest best,
  max_key-largest counts c n rest code,
  max_key-largest counts c n rest best,
)

-- the winner of a dict, as `winning_series_code` takes it from the counts
abbrev winner_of : Counts → Option Text
winner_of [] = none
winner_of ((code, n) ∷ rest) = some (max_key ((code, n) ∷ rest) code rest)

winner_of-largest :
    (counts : Counts) (w c : Text) (n : ℕ)
    → winner_of counts ≡ some w
    → lookup c counts ≡ some n
    → count_of c counts ≤ count_of w counts
unfolding lookup
winner_of-largest [] w c n e h = absurd (ground arith)
winner_of-largest ((code, m) ∷ rest) w c n e h =
    let counts : Counts = (code, m) ∷ rest in
    ground (
      arith,
      text_eq_iff code c,
      max_key-best counts rest code,
      max_key-largest counts c n rest code,
    )

count_of-none : (c : Text) (counts : Counts) → lookup c counts ≡ none → count_of c counts ≡ 0
unfolding count_of
count_of-none c counts e = ground arith

winning_series_code-winner_of :
    (rows : List Row) → winning_series_code rows ≡ winner_of (count_rows [] rows)
unfolding winning_series_code
winning_series_code-winner_of rows = ground arith

-- The winning series is the most used one: no other series code that is not blank stands in more
-- of the rows.
pub winning_series_code_most_used :
    (rows : List Row) (w c : Text)
    → winning_series_code rows ≡ some w
    → c ≢ []
    → occurrences c rows ≤ occurrences w rows
unfolding count_of lookup
winning_series_code_most_used rows w c e h =
    let counts = count_rows [] rows in
    let exact = count_of-count_rows c rows [] h in
    let bound = count_of-count_rows_le w rows [] in
    elim (Option-cases (lookup c counts)) [
      | inl missing ↦ omega (arith, exact, count_of-none c counts missing)
      | inr (n, found) ↦ omega (
        arith,
        exact,
        bound,
        winner_of-largest counts w c n (sym (winning_series_code-winner_of rows) ∙ e) found,
      )
    ]
