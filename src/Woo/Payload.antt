-- ===== src/Woo/Payload.antt =====
-- app/domain/catalog/woo_sync.py: the bodies that are sent to WooCommerce, and the ids that come back.
use fembin.Base.{Text, codes, Option, none, some, true, false}
use fembin.Base.Int.{ℤ, pos}
use fembin.Exec.{Result, ok, err}
use fembin.Errors.{Exn, value_error, key_error, type_error, or_error}
use fembin.Decimal.{print_decimal}
use fembin.Strings.{parse_int, print_ℤ}
use fembin.Json.{Json, bool, num, str, arr, obj, nil, cons, Fields, end, field, get_field}
use fembin.Db.{Product}

abbrev pub hidden_status : Text
hidden_status = codes "private"

abbrev pub published_status : Text
published_status = codes "publish"

abbrev pub category_ref : ℤ → Json
category_ref category_id = arr (cons (obj (field (codes "id") (num category_id) end)) nil)

unfoldable pub create_payload : Product → ℤ → Text → Json
create_payload product category_id status = obj (
    field (codes "name") (str product.name) (
      field (codes "sku") (str (print_ℤ product.busy_code)) (
        field (codes "regular_price") (str (print_decimal product.price)) (
          field (codes "manage_stock") (bool false) (
            field (codes "status") (str status)
              (field (codes "categories") (category_ref category_id) end))))))

abbrev pub status_field : Option Text → Fields
status_field none = end
status_field (some status) = field (codes "status") (str status) end

unfoldable pub sync_payload : Product → ℤ → Option Text → Json
sync_payload product category_id status = obj (
    field (codes "name") (str product.name) (
      field (codes "regular_price") (str (print_decimal product.price))
        (field (codes "categories") (category_ref category_id) (status_field status))))

-- int(j)
unfoldable pub json_int : Json → Result Exn ℤ
json_int (num n) = ok n
json_int (str t) = or_error value_error (parse_int t)
json_int (bool true) = ok (pos 1)
json_int (bool false) = ok (pos 0)
json_int j = err type_error

-- int(j["id"])
unfoldable pub id_of : Json → Result Exn ℤ
unfolding json_int
id_of (obj d) = elim (get_field (codes "id") d) [ none ↦ err key_error | some j ↦ json_int j ]
id_of j = err type_error
