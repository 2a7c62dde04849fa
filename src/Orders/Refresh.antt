-- ===== src/Orders/Refresh.antt =====
-- app/domain/orders/quotations.py: `_with_current_item_data`, on the rows of the product mirror.
pub mod Amounts
use fembin.Base.{
  ◌≡◌, sym, ◌∙◌, inl, inr, refl, Text, Option, none, some, List, [], ◌∷◌, Bool, true, false, ◌||◌,
  if◌then◌else◌, arith, All, Option-cases,
}
use mathlib.Core.Path.{subst}
use fembin.Base.Int.{ℤ, eqb_ℤ, eqb_ℤ_iff}
use fembin.Exec.{Result, ok, err}
use fembin.Errors.{Exn, invalid_operation}
use fembin.Decimal.{Decimal, multiply, quantize}
use fembin.Table.{get_row}
use fembin.Db.{Product}
use fembin.Orders.Items.{QuotationItem, QuotationRequest}

-- the codes of the items that have one
item_codes : List QuotationItem → List ℤ
item_codes [] = []
item_codes (item ∷ items) = elim item.busy_code [
  | none ↦ item_codes items
  | some c ↦ c ∷ item_codes items
]

mem_code : ℤ → List ℤ → Bool
mem_code c [] = false
mem_code c (d ∷ ds) = eqb_ℤ d c || mem_code c ds

-- the rows of the mirror whose code is asked for
current_rows : List ℤ → List Product → List Product
unfolding mem_code
current_rows cs [] = []
current_rows cs (p ∷ ps) =
    let rest = current_rows cs ps in if mem_code p.busy_code cs then p ∷ rest else rest

-- the item with the name and the price of its product, its amount computed anew
unfoldable pub reprice : Text → Decimal → QuotationItem → Result Exn QuotationItem
reprice name price item = elim (quantize (multiply item.qty price)) [
  | none ↦ err invalid_operation
  | some amount ↦ ok (record item { item_name = name; price = price; amount = amount })
]

refresh_item : List Product → QuotationItem → Result Exn QuotationItem
unfolding reprice
refresh_item current item = elim item.busy_code [
  | none ↦ ok item
  | some c ↦ elim (get_row (λ p. p.busy_code) c current) [
    | none ↦ ok item
    | some p ↦ reprice p.name p.price item
  ]
]

refresh_items : List Product → List QuotationItem → Result Exn (List QuotationItem)
unfolding refresh_item
refresh_items current [] = ok []
refresh_items current (item ∷ items) = elim (refresh_item current item) [
  | err e ↦ err e
  | ok item' ↦ elim (refresh_items current items) [
    | err e ↦ err e
    | ok items' ↦ ok (item' ∷ items')
  ]
]

with_items : QuotationRequest → Result Exn (List QuotationItem) → Result Exn QuotationRequest
with_items request (err e) = err e
with_items request (ok items) = ok (record request { items = items })

-- the second early return
refresh_from : List Product → QuotationRequest → Result Exn QuotationRequest
unfolding refresh_items with_items
refresh_from [] request = ok request
refresh_from (p ∷ ps) request = with_items request (refresh_items (p ∷ ps) request.items)

refresh_codes : List ℤ → List Product → QuotationRequest → Result Exn QuotationRequest
unfolding refresh_from current_rows
refresh_codes [] products request = ok request
refresh_codes (c ∷ cs) products request = refresh_from (current_rows (c ∷ cs) products) request

unfoldable pub with_current_item_data :
    List Product → QuotationRequest → Result Exn QuotationRequest
unfolding refresh_codes item_codes
with_current_item_data products request = refresh_codes (item_codes request.items) products request

-- the row of the mirror that an item's code names
abbrev pub product_of : List Product → Option ℤ → Option Product
product_of products none = none
product_of products (some c) = get_row (λ p. p.busy_code) c products

-- What becomes of an item: where the mirror has its product, it takes that row's name and price,
-- and the amount that its quantity makes at that price, in cents; the rest, and any other item, is
-- as it was.
abbrev pub RefreshedBy : Option Product → QuotationItem → QuotationItem → Type 0
RefreshedBy none item item' = item' ≡ item
RefreshedBy (some p) item item' =
    (amount : Decimal) × (quantize (multiply item.qty p.price) ≡ some amount)
    × (item' ≡ record item { item_name = p.name; price = p.price; amount = amount })

abbrev pub IsRefreshed : List Product → QuotationItem → QuotationItem → Type 0
IsRefreshed products item item' = RefreshedBy (product_of products item.busy_code) item item'

-- each item of the one list with the item in its place in the other
abbrev pub Pairwise :
    (QuotationItem → QuotationItem → Type 0) → List QuotationItem → List QuotationItem → Type 0
Pairwise R [] [] = Unit
Pairwise R [] (y ∷ ys) = ⊥
Pairwise R (x ∷ xs) [] = ⊥
Pairwise R (x ∷ xs) (y ∷ ys) = R x y × Pairwise R xs ys

-- restricting the mirror to the codes asked for loses no row that an item looks up
get_row-current_rows :
    (c : ℤ) (cs : List ℤ) (ps : List Product)
    → mem_code c cs ≡ true
    → get_row (λ p. p.busy_code) c (current_rows cs ps) ≡ get_row (λ p. p.busy_code) c ps
unfolding get_row current_rows
get_row-current_rows c cs [] h = refl
get_row-current_rows c cs (p ∷ ps) h =
    ground (arith, eqb_ℤ_iff p.busy_code c, get_row-current_rows c cs ps h)

reprice_ok :
    (name : Text) (price : Decimal) (item item' : QuotationItem)
    → reprice name price item ≡ ok item'
    → (amount : Decimal) × (quantize (multiply item.qty price) ≡ some amount)
      × (item' ≡ record item { item_name = name; price = price; amount = amount })
unfolding reprice
reprice_ok name price item item' h = elim (Option-cases (quantize (multiply item.qty price))) [
  | inl e ↦ absurd (ground (arith, e, h))
  | inr (amount, e) ↦ (amount, e, ground (arith, e, h))
]

refresh_item-IsRefreshed :
    (cs : List ℤ) (ps : List Product) (item item' : QuotationItem)
    → ((c : ℤ) → item.busy_code ≡ some c → mem_code c cs ≡ true)
    → refresh_item (current_rows cs ps) item ≡ ok item'
    → IsRefreshed ps item item'
unfolding refresh_item
refresh_item-IsRefreshed cs ps item item' h r = elim (Option-cases item.busy_code) [
  | inl e ↦ subst (λ c. RefreshedBy (product_of ps c) item item') (sym e) (ground (arith, e, r))
  | inr (c, e) ↦
      let there = get_row-current_rows c cs ps (h c e) in
      subst (λ c. RefreshedBy (product_of ps c) item item') (sym e)
        (elim (Option-cases (get_row (λ p. p.busy_code) c ps)) [
          | inl gone ↦
              subst (λ o. RefreshedBy o item item') (sym gone) (ground (arith, e, there, gone, r))
          | inr (p, found) ↦
              subst (λ o. RefreshedBy o item item') (sym found)
                (reprice_ok p.name p.price item item' (ground (arith, e, there, found, r)))
        ])
]

abbrev Covers : List ℤ → List QuotationItem → Type 0
Covers cs items = All (λ item. (c : ℤ) → item.busy_code ≡ some c → mem_code c cs ≡ true) items

Covers-cons :
    (d : ℤ) (cs : List ℤ) (items : List QuotationItem) → Covers cs items → Covers (d ∷ cs) items
unfolding mem_code
Covers-cons d cs [] h = tt
Covers-cons d cs (item ∷ items) h = (λ c e. ground (arith, h.0 c e), Covers-cons d cs items h.1)

item_codes-none :
    (item : QuotationItem) (items : List QuotationItem)
    → item.busy_code ≡ none
    → item_codes (item ∷ items) ≡ item_codes items
unfolding item_codes
item_codes-none item items e = ground arith

item_codes-some :
    (item : QuotationItem) (items : List QuotationItem) (c : ℤ)
    → item.busy_code ≡ some c
    → item_codes (item ∷ items) ≡ c ∷ item_codes items
unfolding item_codes
item_codes-some item items c e = ground arith

item_codes-Covers : (items : List QuotationItem) → Covers (item_codes items) items
item_codes-Covers [] = unfold item_codes in tt
item_codes-Covers (item ∷ items) = elim (Option-cases item.busy_code) [
  | inl e ↦
      subst (λ cs. Covers cs (item ∷ items)) (sym (item_codes-none item items e))
        (λ c p. absurd (ground arith), item_codes-Covers items)
  | inr (d, e) ↦
      subst (λ cs. Covers cs (item ∷ items)) (sym (item_codes-some item items d e))
        (
          λ c p. unfold mem_code in ground (arith, eqb_ℤ_iff d c),
          Covers-cons d (item_codes items) items (item_codes-Covers items),
        )
]

-- the early returns change nothing
refresh_items-empty : (items : List QuotationItem) → refresh_items [] items ≡ ok items
unfolding refresh_items get_row
refresh_items-empty [] = refl
refresh_items-empty (item ∷ items) = ground (arith, refresh_items-empty items)

refresh_from-eq :
    (current : List Product) (request : QuotationRequest)
    → refresh_from current request ≡ with_items request (refresh_items current request.items)
unfolding refresh_from
refresh_from-eq [] request = rw (refresh_items-empty request.items) (unfold with_items in refl)
refresh_from-eq (p ∷ ps) request = refl

refresh_no_codes :
    (current : List Product) (items : List QuotationItem)
    → item_codes items ≡ []
    → refresh_items current items ≡ ok items
unfolding refresh_items item_codes
refresh_no_codes current [] e = refl
refresh_no_codes current (item ∷ items) e = ground (arith, refresh_no_codes current items)

refresh_codes-eq :
    (cs : List ℤ) (products : List Product) (request : QuotationRequest)
    → item_codes request.items ≡ cs
    → refresh_codes cs products request
      ≡ with_items request (refresh_items (current_rows cs products) request.items)
unfolding refresh_codes
refresh_codes-eq [] products request e =
    rw (refresh_no_codes (current_rows [] products) request.items e) (unfold with_items in refl)
refresh_codes-eq (c ∷ cs) products request e =
    refresh_from-eq (current_rows (c ∷ cs) products) request

refresh_items-Pairwise :
    (cs : List ℤ) (ps : List Product) (items items' : List QuotationItem)
    → Covers cs items
    → refresh_items (current_rows cs ps) items ≡ ok items'
    → Pairwise (IsRefreshed ps) items items'
unfolding refresh_items
refresh_items-Pairwise cs ps [] [] h e = tt
refresh_items-Pairwise cs ps [] (y ∷ ys) h e = absurd (ground arith)
refresh_items-Pairwise cs ps (x ∷ xs) [] h e = absurd (ground arith)
refresh_items-Pairwise cs ps (x ∷ xs) (y ∷ ys) h e = (
  refresh_item-IsRefreshed cs ps x y h.0 (ground arith),
  refresh_items-Pairwise cs ps xs ys h.1 (ground arith),
)

with_items-ok :
    (request request' : QuotationRequest) (r : Result Exn (List QuotationItem))
    → with_items request r ≡ ok request'
    → (request' ≡ record request { items = request'.items }) × (r ≡ ok request'.items)
unfolding with_items
with_items-ok request request' (ok items) e = ground arith
with_items-ok request request' (err x) e = absurd (ground arith)

-- A request that is refreshed keeps everything but its items, and each item in its place takes the
-- current name and price of its product, with the amount that they make; an item with no code, or
-- whose code is not in the mirror, stays as it was.
pub with_current_item_data_refreshes :
    (products : List Product) (request request' : QuotationRequest)
    → with_current_item_data products request ≡ ok request'
    → (request' ≡ record request { items = request'.items })
      × Pairwise (IsRefreshed products) request.items request'.items
with_current_item_data_refreshes products request request' e =
    let cs = item_codes request.items in
    let (kept, read) =
      with_items-ok request request' (refresh_items (current_rows cs products) request.items)
        (sym (refresh_codes-eq cs products request refl) ∙ (unfold with_current_item_data in e)) in
    (
      kept,
      refresh_items-Pairwise cs products request.items request'.items
          (item_codes-Covers request.items) read,
    )
