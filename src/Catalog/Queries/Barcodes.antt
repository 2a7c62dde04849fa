-- ===== src/Catalog/Queries/Barcodes.antt =====
-- No barcode is given to two products.
use fembin.Base.{
  ◌≡◌, ◌≢◌, ◌⊎◌, refl, sym, ◌∙◌, Text, text_eq_refl, none, some, List, [], ◌∷◌, arith, Option-cases,
  Bool-cases, inl, inr,
}
use fembin.Base.Int.{ℤ, eqb_ℤ, eqb_ℤ_iff}
use fembin.Table.{get_row, update_row, get_row-update_row_ne, get_row-update_row_self}
use fembin.Db.{Product, Session}
use fembin.Catalog.Queries.{other_with_barcode, with_barcode, get_product, set_product_barcode}

-- two products that have one barcode are one
abbrev pub HasUniqueBarcodes : List Product → Type 0
HasUniqueBarcodes ps =
    (i j : ℤ) (p q : Product) (barcode : Text)
    → get_row (λ x. x.busy_code) i ps ≡ some p
    → get_row (λ x. x.busy_code) j ps ≡ some q
    → p.barcode ≡ some barcode
    → q.barcode ≡ some barcode
    → i ≡ j

other_with_barcode-none :
    (barcode : Text) (code : ℤ) (ps : List Product) (k : ℤ) (q : Product)
    → other_with_barcode barcode code ps ≡ none
    → get_row (λ x. x.busy_code) k ps ≡ some q
    → q.barcode ≡ some barcode
    → k ≡ code
unfolding other_with_barcode get_row
other_with_barcode-none barcode code [] k q e g b = absurd (ground arith)
other_with_barcode-none barcode code (p ∷ ps) k q e g b = ground (
  arith,
  text_eq_refl barcode,
  eqb_ℤ_iff p.busy_code k,
  eqb_ℤ_iff p.busy_code code,
  other_with_barcode-none barcode code ps k q,
)

-- the row of a code after the update
updated_row :
    (code k : ℤ) (barcode : Text) (ps : List Product) (product p : Product)
    → get_row (λ x. x.busy_code) code ps ≡ some product
    → get_row (λ x. x.busy_code) k (update_row (λ x. x.busy_code) code (with_barcode barcode) ps)
      ≡ some p
    → ((k ≡ code) × (p.barcode ≡ some barcode))
      ⊎ ((k ≢ code) × (get_row (λ x. x.busy_code) k ps ≡ some p))
updated_row code k barcode ps product p g h = elim (Bool-cases (eqb_ℤ code k)) [
  | inl hit ↦
      let same : code ≡ k = (eqb_ℤ_iff code k).0 hit in
      let there =
        get_row-update_row_self (λ x. x.busy_code) code (with_barcode barcode) ps (λ x. refl) g in
      inl (sym same, ground (arith, there, same))
  | inr miss ↦ inr (
    λ same. absurd (ground (arith, eqb_ℤ_iff code k)),
    sym (get_row-update_row_ne (λ x. x.busy_code) code k (with_barcode barcode) ps (λ x. refl) miss)
        ∙ h,
  )
]

update_row-HasUniqueBarcodes :
    (code : ℤ) (barcode : Text) (ps : List Product) (product : Product)
    → get_row (λ x. x.busy_code) code ps ≡ some product
    → other_with_barcode barcode code ps ≡ none
    → HasUniqueBarcodes ps
    → HasUniqueBarcodes (update_row (λ x. x.busy_code) code (with_barcode barcode) ps)
update_row-HasUniqueBarcodes code barcode ps product g free u i j p q b gi gj bi bj =
    elim (updated_row code i barcode ps product p g gi) [
      | inl (at_i, new_i) ↦ elim (updated_row code j barcode ps product q g gj) [
        | inl (at_j, new_j) ↦ at_i ∙ sym at_j
        | inr (off_j, old_j) ↦
            at_i ∙ sym (other_with_barcode-none barcode code ps j q free old_j (bj ∙ ground arith))
      ]
      | inr (off_i, old_i) ↦ elim (updated_row code j barcode ps product q g gj) [
        | inl (at_j, new_j) ↦
            other_with_barcode-none barcode code ps i p free old_i (bi ∙ ground arith) ∙ sym at_j
        | inr (off_j, old_j) ↦ u i j p q b old_i old_j bi bj
      ]
    ]

-- Where no barcode stands at two products, setting one leaves it so, on every outcome.
pub set_product_barcode-HasUniqueBarcodes :
    (code : ℤ) (barcode : Text) (s : Session)
    → HasUniqueBarcodes s.now.products
    → HasUniqueBarcodes (set_product_barcode code barcode s).1.now.products
unfolding set_product_barcode get_product
set_product_barcode-HasUniqueBarcodes code barcode s u =
    elim (Option-cases (get_row (λ x. x.busy_code) code s.now.products)) [
      | inl missing ↦ rw (missing, set_product_barcode) u
      | inr (product, found) ↦
          elim (Option-cases (other_with_barcode barcode code s.now.products)) [
            | inr (other, taken) ↦ rw (found, taken, set_product_barcode) u
            | inl free ↦
                rw (found, free, set_product_barcode)
                  (update_row-HasUniqueBarcodes code barcode s.now.products product found free u)
          ]
    ]
