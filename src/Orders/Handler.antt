-- ===== src/Orders/Handler.antt =====
-- app/domain/orders/quotations.py: `_handle_add_sale_quotation`, and app/outbox/worker.py: the
-- generic `_handle_add_voucher` and the registry of both.
pub mod Posts
pub mod Job
use fembin.Base.{ℕ, Text, codes, Option, none, some, List, [], ◌∷◌, Bool}
use fembin.Base.Int.{ℤ, pos}
use fembin.Exec.{Exec, Result, ok, err, pure, lift, gets, ◌>>=◌}
use fembin.Errors.{Exn, value_error, key_error, type_error, or_error}
use fembin.Strings.{parse_int}
use fembin.Json.{Json, str, num, obj, end, field, get}
use fembin.Db.{State, on_net}
use fembin.Outbox.Worker.{Handler, register_handler}
use fembin.Busy.Client.{BusyClient, add_voucher}
use fembin.Busy.Constants.{vch_type, sale_quotation}
use fembin.Busy.Element.{XmlEntry}
use fembin.Busy.VchNumbering.{get_next_vch_no}
use fembin.Orders.Items.{QuotationRequest, build_quotation_xml}
use fembin.Orders.Payload.{payload_to_request}
use fembin.Orders.Queue.{job_type}
use fembin.Orders.Refresh.{with_current_item_data}
use fembin.Orders.Verify.{verify_and_price_items_from_busy}

abbrev pub posted : Text → Text → Json
posted vch_code vch_no =
    obj (field (codes "vch_code") (str vch_code) (field (codes "vch_no") (str vch_no) end))

-- the request as it is after the payload was read and refreshed from the mirror
unfoldable pub prepare : {W : Type 0} → Json → Exec Exn (State W) QuotationRequest
prepare payload = do
  request ← lift (payload_to_request payload)
  products ← gets (λ s. s.session.saved.products)
  lift (with_current_item_data products request)

-- the number, then the XML, then the one write
unfoldable pub post : {W : Type 0} → BusyClient W → QuotationRequest → Exec Exn W Json
post client request = do
  vch_no ← get_next_vch_no client (vch_type sale_quotation) request.vch_no_prefix
  vch_code ← add_voucher client (vch_type sale_quotation) (build_quotation_xml request vch_no)
  pure (posted vch_code vch_no)

unfoldable pub handle_add_sale_quotation :
    {W : Type 0} → (XmlEntry → Text) → (ℤ → Bool) → BusyClient W → Json → Exec Exn (State W) Json
handle_add_sale_quotation repr accepts client payload = do
  request ← prepare payload
  verified ← verify_and_price_items_from_busy repr accepts client request
  on_net (post client verified)

-- int(payload["vch_type"]), which must not be negative here
as_vch_type : Option Json → Result Exn ℕ
as_vch_type none = err key_error
as_vch_type (some (num (pos n))) = ok n
as_vch_type (some (str t)) = elim (parse_int t) [ some (pos n) ↦ ok n | _ ↦ err value_error ]
as_vch_type (some _) = err type_error

-- str(payload["vch_xml"]), which must be a text here
as_vch_xml : Option Json → Result Exn Text
as_vch_xml none = err key_error
as_vch_xml (some (str t)) = ok t
as_vch_xml (some _) = err type_error

unfoldable pub handle_add_voucher : {W : Type 0} → BusyClient W → Json → Exec Exn (State W) Json
unfolding as_vch_type as_vch_xml
handle_add_voucher client payload = do
  number ← lift (as_vch_type (get (codes "vch_type") payload))
  xml ← lift (as_vch_xml (get (codes "vch_xml") payload))
  vch_code ← on_net (add_voucher client number xml)
  pure (obj (field (codes "vch_code") (str vch_code) end))

-- the table of handlers after both modules are loaded
unfoldable pub handlers :
    {W : Type 0}
    → (XmlEntry → Text)
    → (ℤ → Bool)
    → BusyClient W
    → List (Text × Handler Exn (State W))
handlers repr accepts client =
    register_handler job_type (handle_add_sale_quotation repr accepts client)
      (register_handler (codes "add_voucher") (handle_add_voucher client) [])
