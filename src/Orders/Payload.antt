-- ===== src/Orders/Payload.antt =====
-- app/domain/orders/quotations.py: the request as the JSON payload of an outbox job, and back.
-- A payload whose texts are other JSON values is refused, where Python would carry them on.
use fembin.Base.{Text, codes, Option, none, some, List, [], ◌∷◌}
use fembin.Base.Int.{ℤ}
use fembin.Exec.{Result, ok, err, and_then}
use fembin.Errors.{Exn, key_error, type_error, invalid_operation, or_error}
use fembin.Decimal.{Decimal, parse_decimal, print_decimal}
use fembin.Json.{Json, null, num, str, arr, obj, Items, nil, cons, Fields, end, field, get_field}
use fembin.Orders.Items.{QuotationItem, QuotationRequest}

unfoldable pub code_json : Option ℤ → Json
code_json none = null
code_json (some c) = num c

unfoldable pub item_to_payload : QuotationItem → Json
unfolding code_json
item_to_payload item = obj (
    field (codes "item_name") (str item.item_name) (
      field (codes "unit_name") (str item.unit_name) (
        field (codes "qty") (str (print_decimal item.qty)) (
          field (codes "price") (str (print_decimal item.price)) (
            field (codes "amount") (str (print_decimal item.amount))
              (field (codes "busy_code") (code_json item.busy_code) end))))))

unfoldable pub items_to_payload : List QuotationItem → Items
unfolding item_to_payload
items_to_payload [] = nil
items_to_payload (item ∷ items) = cons (item_to_payload item) (items_to_payload items)

unfoldable pub request_fields : QuotationRequest → Fields
unfolding items_to_payload
request_fields request = field (codes "vch_series_name") (str request.vch_series_name) (
    field (codes "vch_no_prefix") (str request.vch_no_prefix) (
      field (codes "date") (str request.date) (
        field (codes "sale_type_name") (str request.sale_type_name) (
          field (codes "customer_name") (str request.customer_name) (
            field (codes "material_center_name") (str request.material_center_name)
              (field (codes "items") (arr (items_to_payload request.items)) end))))))

unfoldable pub request_to_payload : QuotationRequest → Json
unfolding request_fields
request_to_payload request = obj (request_fields request)

unfoldable pub as_text : Option Json → Result Exn Text
as_text none = err key_error
as_text (some (str t)) = ok t
as_text (some _) = err type_error

unfoldable pub as_decimal : Result Exn Text → Result Exn Decimal
as_decimal (ok t) = or_error invalid_operation (parse_decimal t)
as_decimal (err e) = err e

unfoldable pub as_code : Option Json → Result Exn (Option ℤ)
as_code none = ok none
as_code (some null) = ok none
as_code (some (num c)) = ok (some c)
as_code (some _) = err type_error

infixl 5 ◌>>=◌
abbrev ◌>>=◌ : {A B : Type 0} → Result Exn A → (A → Result Exn B) → Result Exn B
m >>= f = and_then m f

unfoldable pub payload_to_item : Json → Result Exn QuotationItem
unfolding as_text as_decimal as_code
payload_to_item (obj d) = do
  item_name ← as_text (get_field (codes "item_name") d)
  unit_name ← as_text (get_field (codes "unit_name") d)
  qty ← as_decimal (as_text (get_field (codes "qty") d))
  price ← as_decimal (as_text (get_field (codes "price") d))
  amount ← as_decimal (as_text (get_field (codes "amount") d))
  busy_code ← as_code (get_field (codes "busy_code") d)
  ok (record {
    item_name = item_name;
    unit_name = unit_name;
    qty = qty;
    price = price;
    amount = amount;
    busy_code = busy_code;
  })
payload_to_item _ = err type_error

unfoldable pub payload_to_items : Items → Result Exn (List QuotationItem)
unfolding payload_to_item
payload_to_items nil = ok []
payload_to_items (cons j js) = do
  item ← payload_to_item j
  items ← payload_to_items js
  ok (item ∷ items)

unfoldable pub as_items : Option Json → Result Exn (List QuotationItem)
unfolding payload_to_items
as_items none = err key_error
as_items (some (arr js)) = payload_to_items js
as_items (some _) = err type_error

unfoldable pub payload_to_request : Json → Result Exn QuotationRequest
unfolding as_items as_text
payload_to_request (obj d) = do
  items ← as_items (get_field (codes "items") d)
  vch_series_name ← as_text (get_field (codes "vch_series_name") d)
  vch_no_prefix ← as_text (get_field (codes "vch_no_prefix") d)
  date ← as_text (get_field (codes "date") d)
  sale_type_name ← as_text (get_field (codes "sale_type_name") d)
  customer_name ← as_text (get_field (codes "customer_name") d)
  material_center_name ← as_text (get_field (codes "material_center_name") d)
  ok (record {
    vch_series_name = vch_series_name;
    vch_no_prefix = vch_no_prefix;
    date = date;
    sale_type_name = sale_type_name;
    customer_name = customer_name;
    material_center_name = material_center_name;
    items = items;
  })
payload_to_request _ = err type_error
