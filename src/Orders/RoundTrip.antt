-- ===== src/Orders/RoundTrip.antt =====
-- The worker reads back the request that was enqueued.
use fembin.Base.{◌≡◌, refl, codes, text_eq, [], ◌∷◌, List, arith}
use fembin.Exec.{ok}
use fembin.Decimal.RoundTrip.{parse_decimal-print_decimal}
use fembin.Json.{get_field, set_field}
use fembin.Orders.Items.{QuotationItem, QuotationRequest}
use fembin.Orders.Payload.{
  item_to_payload, items_to_payload, request_fields, payload_to_item, payload_to_items,
  payload_to_request,
}
use fembin.Orders.Queue.{Origin, quotation_payload}

payload_to_item-item_to_payload :
    (item : QuotationItem) → payload_to_item (item_to_payload item) ≡ ok item
unfolding payload_to_item item_to_payload get_field codes text_eq
payload_to_item-item_to_payload item = ground (
  arith,
  parse_decimal-print_decimal item.qty,
  parse_decimal-print_decimal item.price,
  parse_decimal-print_decimal item.amount,
)

payload_to_items-items_to_payload :
    (items : List QuotationItem) → payload_to_items (items_to_payload items) ≡ ok items
unfolding payload_to_items items_to_payload
payload_to_items-items_to_payload [] = refl
payload_to_items-items_to_payload (item ∷ items) =
    ground (arith, payload_to_item-item_to_payload item, payload_to_items-items_to_payload items)

-- A request comes back from its job's payload, with the fields of its origin beside it, as it was:
-- its numbers too, with their signs, digits and exponents.
pub payload_to_request-quotation_payload :
    (request : QuotationRequest) (o : Origin)
    → payload_to_request (quotation_payload request o) ≡ ok request
unfolding payload_to_request quotation_payload request_fields get_field set_field codes text_eq
payload_to_request-quotation_payload request o =
    ground (arith, payload_to_items-items_to_payload request.items)
