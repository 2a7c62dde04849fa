-- ===== src/Scripts/Export/Picked.antt =====
-- scripts/export_busy_products_csv.py: rows that are some of the items to do.
use fembin.Base.{◌≡◌, Text, List, [], ◌∷◌, ◌++◌, false, All, inl, inr, Bool-cases}
use fembin.Base.Int.{ℤ}
use fembin.Scripts.Export.{ExportRow, mem_ℤ, to_do}

-- the rows are some of the items, in their order, each under its code and name
pub data Picked : List ExportRow → List (ℤ × Text) → Type 0 where
  done : Picked [] []
  skip :
      {rows : List ExportRow} {todo : List (ℤ × Text)} (x : ℤ × Text)
      → Picked rows todo
      → Picked rows (x ∷ todo)
  keep :
      {rows : List ExportRow} {todo : List (ℤ × Text)} (row : ExportRow) (x : ℤ × Text)
      → row.busy_code ≡ x.0
      → row.name ≡ x.1
      → Picked rows todo
      → Picked (row ∷ rows) (x ∷ todo)

pub Picked-append :
    {a b : List ExportRow} {x y : List (ℤ × Text)}
    → Picked a x
    → Picked b y
    → Picked (a ++ b) (x ++ y)
Picked-append done q = q
Picked-append (skip x p) q = skip x (Picked-append p q)
Picked-append (keep row x c n p) q = keep row x c n (Picked-append p q)

pub Picked-nothing : (todo : List (ℤ × Text)) → Picked [] todo
Picked-nothing [] = done
Picked-nothing (x ∷ xs) = skip x (Picked-nothing xs)

pub Picked-All :
    {rows : List ExportRow} {todo : List (ℤ × Text)} (seen : List ℤ)
    → Picked rows todo
    → All (λ x. mem_ℤ x.0 seen ≡ false) todo
    → All (λ r. mem_ℤ r.busy_code seen ≡ false) rows
Picked-All seen done h = tt
Picked-All seen (skip x p) h = Picked-All seen p h.1
Picked-All seen (keep row x c n p) h = (rw c h.0, Picked-All seen p h.1)

pub to_do-All :
    (seen : List ℤ) (xs : List (ℤ × Text)) → All (λ x. mem_ℤ x.0 seen ≡ false) (to_do seen xs)
unfolding to_do
to_do-All seen [] = tt
to_do-All seen (x ∷ xs) = elim (Bool-cases (mem_ℤ x.0 seen)) [
  | inl old ↦ rw old (to_do-All seen xs)
  | inr new ↦ rw new (new, to_do-All seen xs)
]
