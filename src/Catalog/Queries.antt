-- ===== src/Catalog/Queries.antt =====
-- app/domain/catalog/queries.py: the listings, the lookups and `set_product_barcode`.
pub mod Barcodes
pub mod Listings
use fembin.Base.{
  Text, text_eq, Option, none, some, List, [], ◌∷◌, Bool, true, false, not, ◌&&◌, if◌then◌else◌,
  ◌++◌, map,
}
use fembin.Base.Int.{ℤ, eqb_ℤ}
use fembin.Exec.{Exec, Result, ok, err}
use fembin.Errors.{Exn, product_not_found, duplicate_barcode}
use fembin.Table.{get_row, update_row}
use fembin.Table.Order.{Collation, select_where, order_by}
use fembin.Db.{Db, Category, MaterialCenter, Product, Salesman, SyncState, Session, commit}

unfoldable pub get_product : ℤ → Session → Option Product
get_product code s = get_row (λ p. p.busy_code) code s.now.products

abbrev pub has_barcode : Text → Option Text → Bool
has_barcode barcode none = false
has_barcode barcode (some b) = text_eq b barcode

-- a product with the barcode, other than the one with the code
unfoldable pub other_with_barcode : Text → ℤ → List Product → Option Product
other_with_barcode barcode code [] = none
other_with_barcode barcode code (p ∷ ps) =
    if has_barcode barcode p.barcode && not (eqb_ℤ p.busy_code code)
    then some p
    else other_with_barcode barcode code ps

abbrev pub with_barcode : Text → Product → Product
with_barcode barcode p = record p { barcode = some barcode }

unfoldable pub set_product_barcode : ℤ → Text → Exec Exn Session Product
unfolding get_product
set_product_barcode code barcode s = elim (get_product code s) [
  | none ↦ (err product_not_found, s)
  | some product ↦ elim (other_with_barcode barcode code s.now.products) [
    | some existing ↦ (err duplicate_barcode, s)
    | none ↦ (
      ok (with_barcode barcode product),
      commit (record s {
        now = record s.now {
          products = update_row (λ p. p.busy_code) code (with_barcode barcode) s.now.products;
        };
      }),
    )
  ]
]

-- the WHERE of an optional text: none for a blank one
unfoldable pub where_text : {A : Type 0} → Option Text → (Text → A → Bool) → List A → List A
where_text none test rows = rows
where_text (some []) test rows = rows
where_text (some (c ∷ t)) test rows = select_where (test (c ∷ t)) rows

unfoldable pub where_active : Option Bool → List Product → List Product
where_active none rows = rows
where_active (some true) rows = select_where (λ p. p.is_active) rows
where_active (some false) rows = select_where (λ p. not p.is_active) rows

module _ (collation : Collation) where
  -- Product.name.ilike(f"%{search}%")
  abbrev pub found_by : Text → Product → Bool
  found_by search p = collation.ilike p.name (b'%' ∷ search ++ b'%' ∷ [])

  unfoldable pub list_products : Option Text → Option Text → Option Bool → Session → List Product
  list_products search category active s =
      order_by collation (λ p. p.name)
        (where_active active (
          where_text category (λ t p. collation.equal p.item_group t)
            (where_text search found_by s.now.products)))

  unfoldable pub list_categories : Session → List Category
  list_categories s = order_by collation (λ c. c.busy_group_name) s.now.categories

  unfoldable pub list_material_centers : Session → List MaterialCenter
  list_material_centers s = order_by collation (λ c. c.name) s.now.material_centers

  unfoldable pub list_salesmen : Bool → Session → List Salesman
  list_salesmen active_only s =
      order_by collation (λ x. x.name)
        (if active_only then select_where (λ x. x.is_active) s.now.salesmen else s.now.salesmen)

unfoldable pub get_salesman : ℤ → Session → Option Salesman
get_salesman code s = get_row (λ x. x.busy_code) code s.now.salesmen

pub record SyncStatusEntry : Type 0 where
  pub entity : Text
  pub last_stamp : ℤ

unfoldable pub get_sync_status : Collation → Session → List SyncStatusEntry
get_sync_status collation s =
    map (λ r. record { entity = r.entity; last_stamp = r.last_stamp })
      (order_by collation (λ r. r.entity) s.now.sync_state)
