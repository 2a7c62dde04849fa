-- ===== src/Orders/Verify.antt =====
-- app/domain/orders/quotations.py: `_verify_and_price_items_from_busy`. Each item is read back from
-- BUSY right before posting. `repr` is Python's text for a dict or a list, which `str` gives where
-- a tag holds other tags or stands twice.
pub mod Gate
use fembin.Base.{
  ℕ, Text, codes, text_eq, ◌≡◌, Option, none, some, List, [], ◌∷◌, ◌++◌, Bool, true, false, not,
  if◌then◌else◌, arith,
}
use fembin.Base.Int.{ℤ}
use fembin.Exec.{Exec, Result, ok, err, pure, raise, lift, gets, modify, raise_if, ◌>>=◌, ◌>>◌}
use fembin.Errors.{
  Exn, busy_error, value_error, invalid_operation, item_mismatch, Mismatch, no_code, unreadable,
  bad_shape, name_differs, or_error,
}
use fembin.Decimal.{Decimal, decimal_zero, parse_decimal}
use fembin.Table.{update_row}
use fembin.Db.{Db, Product, Session, State, commit, on_net}
use fembin.Busy.Client.{BusyClient, get_master_xml}
use fembin.Busy.Element.{
  XmlValue, text, dict, XmlFields, XmlEntry, one, many, get_entry, parse_element_xml,
}
use fembin.Catalog.Detail.{entry_or, item_price, item_node}
use fembin.Catalog.Snapshot.{apply_live_product_snapshot}
use fembin.Orders.Items.{QuotationItem, QuotationRequest}
use fembin.Orders.Refresh.{reprice}

module _ (repr : XmlEntry → Text) where
  -- the name and the price that BUSY holds now, from the XML of the master
  unfoldable pub live_data : ℤ → Text → Result Exn (Text × Decimal)
  unfolding entry_or item_price item_node
  live_data code detail_xml = elim (parse_element_xml detail_xml) [
    | err e ↦ err e
    | ok parsed ↦ elim (item_node parsed) [
      | none ↦ err (item_mismatch (bad_shape code))
      | some d ↦ elim (item_price repr d) [
        | none ↦ err invalid_operation
        | some price ↦ ok (entry_or repr (get_entry (codes "Name") d), price)
      ]
    ]
  ]

-- `except BusyError as exc: raise ItemMismatchError`
abbrev pub as_mismatch : {A : Type 0} → ℤ → Text → Result Exn A → Result Exn A
as_mismatch code name (ok a) = ok a
as_mismatch code name (err (busy_error op response)) =
    err (item_mismatch (unreadable code name response))
as_mismatch code name (err e) = err e

module _ {W : Type 0} (repr : XmlEntry → Text) (accepts : ℤ → Bool) (client : BusyClient W) where
  read_item : ℤ → Text → Exec Exn (State W) Text
  read_item code name s =
      let (r, s') = on_net (get_master_xml client code) s in (as_mismatch code name r, s')

  -- best effort: `accepts` says whether the database takes the write
  freshen_mirror : ℤ → Text → Decimal → Exec Exn (State W) Unit
  freshen_mirror code name price = modify (λ s.
      if accepts code
      then record s { session = apply_live_product_snapshot code name price s.session }
      else s)

  unfoldable pub verify_code : ℤ → QuotationItem → Exec Exn (State W) QuotationItem
  unfolding read_item freshen_mirror
  verify_code code item = do
    detail_xml ← read_item code item.item_name
    live ← lift (live_data repr code detail_xml)
    raise_if (not (text_eq live.0 item.item_name))
        (item_mismatch (name_differs code item.item_name live.0))
    freshen_mirror code live.0 live.1
    lift (reprice item.item_name live.1 item)

  unfoldable pub verify_item : QuotationItem → Exec Exn (State W) QuotationItem
  verify_item item = elim item.busy_code [
    | none ↦ raise (item_mismatch (no_code item.item_name))
    | some code ↦ verify_code code item
  ]

  unfoldable pub verify_items : List QuotationItem → Exec Exn (State W) (List QuotationItem)
  verify_items [] = pure []
  verify_items (item ∷ items) = do
    item' ← verify_item item
    items' ← verify_items items
    pure (item' ∷ items')

  unfoldable pub verify_and_price_items_from_busy :
      QuotationRequest → Exec Exn (State W) QuotationRequest
  verify_and_price_items_from_busy request = do
    items ← verify_items request.items
    pure (record request { items = items })
