-- ===== src/Api/Products.antt =====
-- app/api/v1/products.py: the routes of the products.
use fembin.Base.{ℕ, Text, Option, none, some, List, map, Bool}
use fembin.Base.Int.{ℤ}
use fembin.Exec.{Exec, Result, ok, err}
use fembin.Errors.{Exn, product_not_found, duplicate_barcode}
use fembin.Decimal.{Decimal}
use fembin.Table.Order.{Collation}
use fembin.Db.{Product, Session}
use fembin.Auth.Tokens.{Jwt, JwtSettings}
use fembin.Catalog.Queries.{list_products, get_product, set_product_barcode}
use fembin.Api.{HttpError, http, raised}
use fembin.Api.Accounts.{for_superadmin}

pub record ProductOut : Type 0 where
  pub busy_code : ℤ
  pub name : Text
  pub price : Decimal
  pub unit : Text
  pub item_group : Text
  pub tracks_stock : Bool
  pub is_active : Bool
  pub woo_product_id : Option ℤ
  pub woo_synced_price : Option Decimal
  pub barcode : Option Text

abbrev pub product_out : Product → ProductOut
product_out p = record {
  busy_code = p.busy_code;
  name = p.name;
  price = p.price;
  unit = p.unit;
  item_group = p.item_group;
  tracks_stock = p.tracks_stock;
  is_active = p.is_active;
  woo_product_id = p.woo_product_id;
  woo_synced_price = p.woo_synced_price;
  barcode = p.barcode;
}

unfoldable pub list_products_route :
    Collation → Option Text → Option Text → Option Bool → Session → List ProductOut
list_products_route collation search category active s =
    map product_out (list_products collation search category active s)

unfoldable pub get_product_route : ℤ → Session → Result HttpError ProductOut
get_product_route code s = elim (get_product code s) [
  | none ↦ err (http 404)
  | some product ↦ ok (product_out product)
]

unfoldable pub assigned : Result Exn Product → Result HttpError ProductOut
assigned (ok product) = ok (product_out product)
assigned (err product_not_found) = err (http 404)
assigned (err duplicate_barcode) = err (http 409)
assigned (err e) = err (raised e)

unfoldable pub set_product_barcode_route :
    Jwt → JwtSettings → ℤ → Text → ℕ → Text → Exec HttpError Session ProductOut
unfolding assigned
set_product_barcode_route jwt settings code barcode now credentials =
    for_superadmin jwt settings (λ s. s.now) now credentials
      (λ s. let (r, t) = set_product_barcode code barcode s in (assigned r, t))
