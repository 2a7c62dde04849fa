-- ===== src/Busy/Pagination/Order.antt =====
-- The rows behind a cursor in a table that is sorted by stamp and code.
use fembin.Base.{
  ℕ, zero, suc, ◌≡◌, refl, List, [], ◌∷◌, Bool, true, false, ◌&&◌, ◌||◌, arith, if◌then◌else◌, take,
  drop, All, Bool-cases, inl, inr,
}
use fembin.Base.Int.{ℤ, ltb_ℤ, eqb_ℤ}
use fembin.Busy.Rowset.{Row}
use fembin.Busy.Pagination.{Cursor, after_stamp, after_row}

-- a row with the numbers of its key
pub record Entry : Type 0 where
  pub stamp : ℤ
  pub code : ℤ
  pub row : Row

abbrev pub cursor_of : Entry → Cursor
cursor_of e = after_row e.stamp e.code

-- what the condition of a page's query says of a row
unfoldable pub is_after : Cursor → Entry → Bool
is_after (after_stamp s) e = ltb_ℤ s e.stamp
is_after (after_row s c) e = ltb_ℤ s e.stamp || (eqb_ℤ s e.stamp && ltb_ℤ c e.code)

unfoldable pub rows_after : Cursor → List Entry → List Entry
rows_after c [] = []
rows_after c (e ∷ es) = let rest = rows_after c es in if is_after c e then e ∷ rest else rest

-- ORDER BY Stamp, Code, with no key twice
abbrev pub IsOrdered : List Entry → Type 0
IsOrdered [] = Unit
IsOrdered (e ∷ es) = All (λ f. is_after (cursor_of e) f ≡ true) es × IsOrdered es

abbrev pub last_entry : Entry → List Entry → Entry
last_entry e [] = e
last_entry e (f ∷ es) = last_entry f es

is_after_irrefl : (e : Entry) → is_after (cursor_of e) e ≡ false
unfolding is_after
is_after_irrefl e = ground arith

is_after_asym : (e f : Entry) → is_after (cursor_of e) f ≡ true → is_after (cursor_of f) e ≡ false
unfolding is_after
is_after_asym e f h = ground arith

is_after_trans :
    (c : Cursor) (e f : Entry)
    → is_after c e ≡ true
    → is_after (cursor_of e) f ≡ true
    → is_after c f ≡ true
unfolding is_after
is_after_trans (after_stamp s) e f h k = ground arith
is_after_trans (after_row s c) e f h k = ground arith

All-last_entry :
    (P : Entry → Type 0) (e : Entry) (es : List Entry) → P e → All P es → P (last_entry e es)
All-last_entry P e [] p ps = p
All-last_entry P e (f ∷ es) p ps = All-last_entry P f es ps.0 ps.1

All-take : (P : Entry → Type 0) (n : ℕ) (es : List Entry) → All P es → All P (take n es)
All-take P zero es h = tt
All-take P (suc n) [] h = tt
All-take P (suc n) (e ∷ es) h = (h.0, All-take P n es h.1)

pub All-rows_after :
    (P : Entry → Type 0) (c : Cursor) (es : List Entry) → All P es → All P (rows_after c es)
unfolding rows_after
All-rows_after P c [] h = tt
All-rows_after P c (e ∷ es) h = elim (Bool-cases (is_after c e)) [
  | inl b ↦ rw b (h.0, All-rows_after P c es h.1)
  | inr b ↦ rw b (All-rows_after P c es h.1)
]

pub rows_after-IsOrdered :
    (c : Cursor) (es : List Entry) → IsOrdered es → IsOrdered (rows_after c es)
unfolding rows_after
rows_after-IsOrdered c [] h = tt
rows_after-IsOrdered c (e ∷ es) h = elim (Bool-cases (is_after c e)) [
  | inl b ↦ rw b (
    All-rows_after (λ f. is_after (cursor_of e) f ≡ true) c es h.0,
    rows_after-IsOrdered c es h.1,
  )
  | inr b ↦ rw b (rows_after-IsOrdered c es h.1)
]

pub rows_after-All :
    (c : Cursor) (es : List Entry) → All (λ e. is_after c e ≡ true) (rows_after c es)
unfolding rows_after
rows_after-All c [] = tt
rows_after-All c (e ∷ es) = elim (Bool-cases (is_after c e)) [
  | inl b ↦ rw b (b, rows_after-All c es)
  | inr b ↦ rw b (rows_after-All c es)
]

-- behind a later row, nothing is lost by looking behind the earlier cursor first
pub rows_after-rows_after :
    (c : Cursor) (k : Entry) (es : List Entry)
    → is_after c k ≡ true
    → rows_after (cursor_of k) (rows_after c es) ≡ rows_after (cursor_of k) es
unfolding rows_after
rows_after-rows_after c k [] h = refl
rows_after-rows_after c k (e ∷ es) h =
    ground (arith, rows_after-rows_after c k es h, is_after_trans c k e h)

rows_after_same :
    (c : Cursor) (es : List Entry) → All (λ e. is_after c e ≡ true) es → rows_after c es ≡ es
unfolding rows_after
rows_after_same c [] h = refl
rows_after_same c (e ∷ es) h = ground (arith, h.0, rows_after_same c es h.1)

-- behind the last row of a page stands what the page left over
pub rows_after-last :
    (n : ℕ) (e : Entry) (es : List Entry)
    → IsOrdered (e ∷ es)
    → rows_after (cursor_of (last_entry e (take n es))) (e ∷ es) ≡ drop n es
unfolding rows_after
rows_after-last zero e es h = rw (is_after_irrefl e) (rows_after_same (cursor_of e) es h.0)
rows_after-last (suc n) e [] h = rw (is_after_irrefl e) refl
rows_after-last (suc n) e (f ∷ es) h =
    let k = last_entry f (take n es) in
    let behind : is_after (cursor_of e) k ≡ true =
      All-last_entry (λ g. is_after (cursor_of e) g ≡ true) f (take n es) h.0.0
        (All-take (λ g. is_after (cursor_of e) g ≡ true) n es h.0.1) in
    rw (is_after_asym e k behind) (rows_after-last n f es h.1)
