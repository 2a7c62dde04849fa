-- ===== src/Busy/Pagination/Exact.antt =====
-- `fetch_all_pages` against a server that answers each page's query from a sorted table.
use fembin.Base.{
  ℕ, zero, suc, ◌<◌, ◌≡◌, ◌⊎◌, refl, sym, ◌∙◌, ap, Text, codes, Option, some, List, [], ◌∷◌, ◌++◌,
  true, arith, take, drop, length, length-take, length-drop, take-append-drop, All, map, Bool-cases,
  inl, inr, ltb,
}
use mathlib.Core.Path.{subst}
use fembin.Base.Int.{ℤ}
use fembin.Exec.{Exec, ok}
use fembin.Errors.{Exn}
use fembin.Busy.Client.{BusyClient, run_query}
use fembin.Busy.Rowset.{Row, parse_rowset_xml}
use fembin.Busy.Pagination.{
  Cursor, after_stamp, page_sql, row_cursor, last_row, has_column, read_page, fetch_pages,
  fetch_all_pages,
}
use fembin.Busy.Pagination.Order.{
  Entry, cursor_of, rows_after, IsOrdered, last_entry, rows_after-IsOrdered, rows_after-All,
  rows_after-rows_after, rows_after-last, is_after, All-rows_after,
}

abbrev pub rows_of : List Entry → List Row
rows_of es = map (λ e. e.row) es

-- the numbers of each entry are what its row says
abbrev pub IsKeyed : List Entry → Type 0
IsKeyed es = All (λ e. row_cursor e.row ≡ ok (cursor_of e)) es

-- The answer to a page's query: the first rows of the table behind the cursor, in its order.
pub record Page {W : Type 0} (client : BusyClient W) (columns : List Text) (from_and_where : Text)
    (page_size : ℕ) (table : List Entry) (cursor : Cursor) (w : W) : Type 0 where
  pub next : W
  pub xml : Text
  pub answered :
      run_query client (page_sql columns from_and_where page_size cursor) w ≡ (ok xml, next)
  pub parsed : parse_rowset_xml xml ≡ ok (rows_of (take page_size (rows_after cursor table)))

-- the cursors that the loop can ask for: the start, and one behind each row
abbrev pub HasCursor : Cursor → List Entry → Type 0
HasCursor c [] = ⊥
HasCursor c (e ∷ es) = (c ≡ cursor_of e) ⊎ HasCursor c es

abbrev pub Asked : ℤ → List Entry → Cursor → Type 0
Asked since table c = (c ≡ after_stamp since) ⊎ HasCursor c table

All-map : (P Q : Entry → Type 0) (es : List Entry) → ((e : Entry) → P e → Q e) → All P es → All Q es
All-map P Q [] f h = tt
All-map P Q (e ∷ es) f h = (f e h.0, All-map P Q es f h.1)

All-HasCursor : (es : List Entry) → All (λ e. HasCursor (cursor_of e) es) es
All-HasCursor [] = tt
All-HasCursor (e ∷ es) = (
  inl refl,
  All-map (λ f. HasCursor (cursor_of f) es) (λ f. HasCursor (cursor_of f) (e ∷ es)) es
      (λ f h. inr h) (All-HasCursor es),
)

last_row-rows_of :
    (e : Entry) (es : List Entry) → last_row e.row (rows_of es) ≡ (last_entry e es).row
last_row-rows_of e [] = refl
last_row-rows_of e (f ∷ es) = last_row-rows_of f es

length-rows_of : (es : List Entry) → length (rows_of es) ≡ length es
length-rows_of [] = refl
length-rows_of (e ∷ es) = ap suc (length-rows_of es)

rows_of-append : (xs ys : List Entry) → rows_of (xs ++ ys) ≡ rows_of xs ++ rows_of ys
rows_of-append [] ys = refl
rows_of-append (x ∷ xs) ys = ap (λ (r : List Row). x.row ∷ r) (rows_of-append xs ys)

All-last :
    (P : Entry → Type 0) (n : ℕ) (e : Entry) (es : List Entry)
    → P e
    → All P es
    → P (last_entry e (take n es))
All-last P zero e es p h = p
All-last P (suc n) e [] p h = p
All-last P (suc n) e (f ∷ es) p h = All-last P n f es h.0 h.1

IsKeyed-rows_after : (c : Cursor) (es : List Entry) → IsKeyed es → IsKeyed (rows_after c es)
unfolding rows_after
IsKeyed-rows_after c [] h = tt
IsKeyed-rows_after c (e ∷ es) h = elim (Bool-cases (is_after c e)) [
  | inl b ↦ rw b (h.0, IsKeyed-rows_after c es h.1)
  | inr b ↦ rw b (IsKeyed-rows_after c es h.1)
]

-- a page that is not full is the last one
take-all : (n : ℕ) (es : List Entry) → length (take n es) < n → take n es ≡ es
take-all zero es h = absurd (omega arith)
take-all (suc n) [] h = refl
take-all (suc n) (e ∷ es) h = ap (λ (r : List Entry). e ∷ r) (take-all n es (omega arith))

List-cases : (xs : List Entry) → (xs ≡ []) ⊎ ((x : Entry) × (ys : List Entry) × (xs ≡ x ∷ ys))
List-cases [] = inl refl
List-cases (x ∷ xs) = inr (x, xs, refl)

module _ {W : Type 0} (client : BusyClient W) (columns : List Text) (from_and_where : Text) (m : ℕ)
    (table : List Entry) (since : ℤ)
    (serves : (c : Cursor)
      → Asked since table c
      → (w : W) → Page client columns from_and_where (suc m) table c w)
    (ordered : IsOrdered table) (keyed : IsKeyed table) where
  abbrev fetch : ℕ → Cursor → Exec Exn W (Option (List Row))
  fetch = fetch_pages client columns from_and_where (suc m)

  read_page_serves :
      (c : Cursor) (asked : Asked since table c) (w : W)
      → read_page client columns from_and_where (suc m) c w
        ≡ (ok (rows_of (take (suc m) (rows_after c table))), (serves c asked w).next)
  unfolding read_page
  read_page_serves c asked w =
      let page = serves c asked w in ground (arith, page.answered, page.parsed)

  fetch_none :
      (fuel : ℕ) (c : Cursor) (asked : Asked since table c) (w : W)
      → rows_after c table ≡ []
      → (fetch (suc fuel) c w).0 ≡ ok (some [])
  unfolding fetch_pages
  fetch_none fuel c asked w at = ground (arith, read_page_serves c asked w, at)

  -- a page that is not full
  fetch_last :
      (fuel : ℕ) (c next : Cursor) (asked : Asked since table c) (w : W) (e : Entry)
      (es : List Entry)
      → rows_after c table ≡ e ∷ es
      → row_cursor (last_row e.row (rows_of (take m es))) ≡ ok next
      → length (rows_of (take m es)) < m
      → (fetch (suc fuel) c w).0 ≡ ok (some (e.row ∷ rows_of (take m es)))
  unfolding fetch_pages
  fetch_last fuel c next asked w e es at key short =
      ground (arith, read_page_serves c asked w, at, key, short)

  -- a full one, and what follows
  fetch_more :
      (fuel : ℕ) (c next : Cursor) (asked : Asked since table c) (w : W) (e : Entry)
      (es : List Entry) (rest : List Row)
      → rows_after c table ≡ e ∷ es
      → row_cursor (last_row e.row (rows_of (take m es))) ≡ ok next
      → length (rows_of (take m es)) ≡ m
      → ((v : W) → (fetch fuel next v).0 ≡ ok (some rest))
      → (fetch (suc fuel) c w).0 ≡ ok (some ((e.row ∷ rows_of (take m es)) ++ rest))
  unfolding fetch_pages
  fetch_more fuel c next asked w e es rest at key full later =
      ground (arith, read_page_serves c asked w, at, key, full, later (serves c asked w).next)

  -- the last row of the page is behind the cursor, and what is behind it is the rest
  last_behind :
      (c : Cursor) (e : Entry) (es : List Entry)
      → rows_after c table ≡ e ∷ es
      → let k = last_entry e (take m es) in
        (row_cursor (last_row e.row (rows_of (take m es))) ≡ ok (cursor_of k))
        × (rows_after (cursor_of k) table ≡ drop m es)
        × HasCursor (cursor_of k) table
  last_behind c e es at =
      let k = last_entry e (take m es) in
      let in_order = subst IsOrdered at (rows_after-IsOrdered c table ordered) in
      let keys = subst IsKeyed at (IsKeyed-rows_after c table keyed) in
      let after = subst (All (λ f. is_after c f ≡ true)) at (rows_after-All c table) in
      let known =
        subst (All (λ f. HasCursor (cursor_of f) table)) at
          (All-rows_after (λ f. HasCursor (cursor_of f) table) c table (All-HasCursor table)) in
      let behind = All-last (λ f. is_after c f ≡ true) m e es after.0 after.1 in
      (
        rw (last_row-rows_of e (take m es))
            (All-last (λ f. row_cursor f.row ≡ ok (cursor_of f)) m e es keys.0 keys.1),
        sym (rows_after-rows_after c k table behind)
            ∙ (ap (rows_after (cursor_of k)) at ∙ rows_after-last m e es in_order),
        All-last (λ f. HasCursor (cursor_of f) table) m e es known.0 known.1,
      )

  fetch_exact :
      (fuel : ℕ) (c : Cursor) (asked : Asked since table c) (w : W)
      → length (rows_after c table) < fuel
      → (fetch fuel c w).0 ≡ ok (some (rows_of (rows_after c table)))
  fetch_exact zero c asked w h = absurd (omega arith)
  fetch_exact (suc fuel) c asked w h = elim (List-cases (rows_after c table)) [
    | inl at ↦ rw at (fetch_none fuel c asked w at)
    | inr (e, es, at) ↦
        let k = last_entry e (take m es) in
        let (key, rest, known) = last_behind c e es at in
        elim (Bool-cases (ltb (length (take m es)) m)) [
          | inl short ↦
              let less : length (take m es) < m = ground arith in
              rw at (
                fetch_last fuel c (cursor_of k) asked w e es at key
                  (rw (length-rows_of (take m es)) less)
                ∙ ap (λ (l : List Entry). ok (some (e.row ∷ rows_of l))) (take-all m es less))
          | inr full ↦
              let same : length (take m es) ≡ m = ground (arith, length-take m es) in
              let total = subst (λ (l : List Entry). length l < suc fuel) at h in
              let fewer : length (drop m es) < fuel = omega (arith, length-drop m es, total) in
              rw at (
                fetch_more fuel c (cursor_of k) asked w e es (rows_of (drop m es)) at key
                  (length-rows_of (take m es) ∙ same)
                  (λ v.
                    fetch_exact fuel (cursor_of k) (inr known) v (rw rest fewer)
                    ∙ ap (λ (l : List Entry). ok (some (rows_of l))) rest)
                ∙ ap (λ (l : List Row). ok (some (e.row ∷ l)))
                    (sym (rows_of-append (take m es) (drop m es))
                      ∙ ap rows_of (take-append-drop m es)))
        ]
  ]

  -- Take a server that answers the query of each page that can be asked for with the first rows,
  -- as many as a page holds, of a table sorted by stamp and code without repetition, and columns
  -- that hold both. With fuel for one round more than there are rows behind `since`, and pages of
  -- one row or more, the loop ends and returns each of those rows exactly once and in order,
  -- however many share a stamp.
  pub fetch_all_pages_exact :
      (fuel : ℕ) (w : W)
      → has_column (codes "Stamp") columns ≡ true
      → has_column (codes "Code") columns ≡ true
      → length (rows_after (after_stamp since) table) < fuel
      → (fetch_all_pages client columns from_and_where (suc m) fuel since w).0
        ≡ ok (some (rows_of (rows_after (after_stamp since) table)))
  unfolding fetch_all_pages
  fetch_all_pages_exact fuel w stamp code h =
      ground (arith, stamp, code, fetch_exact fuel (after_stamp since) (inl refl) w h)
