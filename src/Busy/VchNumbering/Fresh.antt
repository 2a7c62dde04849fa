-- ===== src/Busy/VchNumbering/Fresh.antt =====
-- The computed voucher number is free: no row that BUSY returned carries it.
use fembin.Base.{
  ℕ, ◌+◌, ◌≤◌, ◌≡◌, ◌≢◌, Text, codes, some, List, [], ◌∷◌, ◌++◌, arith, All, Option-cases, inl, inr,
}
use fembin.Strings.{print_ℕ}
use fembin.Strings.Digits.{digits-print_ℕ, strip_prefix-append}
use fembin.Busy.Rowset.{Row}
use fembin.Busy.VchNumbering.{vch_no_match, row_vch_no, larger, max_n, next_vch_no}

max_n-le : (prefix : Text) (m : ℕ) (rows : List Row) → m ≤ max_n prefix m rows
unfolding max_n
max_n-le prefix m [] = omega arith
max_n-le prefix m (row ∷ rows) = elim (Option-cases (vch_no_match prefix (row_vch_no row))) [
  | inl e ↦ rw e (max_n-le prefix m rows)
  | inr (n, e) ↦ rw e (ground (arith, max_n-le prefix n rows, max_n-le prefix m rows))
]

-- every number that a row carries under the prefix is at most the maximum
max_n_bounds :
    (prefix : Text) (m k : ℕ) (rows : List Row)
    → max_n prefix m rows ≤ k
    → All (λ row. (n : ℕ) → vch_no_match prefix (row_vch_no row) ≡ some n → n ≤ k) rows
unfolding max_n
max_n_bounds prefix m k [] h = tt
max_n_bounds prefix m k (row ∷ rows) h = (
  λ n e. ground (arith, max_n-le prefix (larger m (vch_no_match prefix (row_vch_no row))) rows),
  max_n_bounds prefix (larger m (vch_no_match prefix (row_vch_no row))) k rows h,
)

vch_no_match-next :
    (prefix : Text) (rows : List Row)
    → vch_no_match prefix (next_vch_no prefix rows) ≡ some (max_n prefix 0 rows + 1)
unfolding vch_no_match next_vch_no
vch_no_match-next prefix rows = ground (
  arith,
  strip_prefix-append (prefix ++ codes "-") (print_ℕ (max_n prefix 0 rows + 1)),
  digits-print_ℕ (max_n prefix 0 rows + 1),
)

fresh_in :
    (prefix vch_no : Text) (k : ℕ) (rows : List Row)
    → vch_no_match prefix vch_no ≡ some (k + 1)
    → All (λ row. (n : ℕ) → vch_no_match prefix (row_vch_no row) ≡ some n → n ≤ k) rows
    → All (λ row. row_vch_no row ≢ vch_no) rows
fresh_in prefix vch_no k [] e h = tt
fresh_in prefix vch_no k (row ∷ rows) e h =
    (λ same. absurd (omega (arith, h.0 (k + 1) (rw same e))), fresh_in prefix vch_no k rows e h.1)

-- No row that BUSY returned has the number that is computed from them, for any prefix.
pub next_vch_no_fresh :
    (prefix : Text) (rows : List Row) → All (λ row. row_vch_no row ≢ next_vch_no prefix rows) rows
next_vch_no_fresh prefix rows =
    fresh_in prefix (next_vch_no prefix rows) (max_n prefix 0 rows) rows
      (vch_no_match-next prefix rows)
      (max_n_bounds prefix 0 (max_n prefix 0 rows) rows (omega arith))
