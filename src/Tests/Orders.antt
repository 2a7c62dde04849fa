-- ===== src/Tests/Orders.antt =====
-- A quotation with one item, against a BUSY server that has it under another name.
use fembin.Base.{
  ◌≡◌, ◌↔◌, ◌⊎◌, refl, codes, text_eq, some, List, [], ◌∷◌, ◌++◌, true, false, ◌*◌, ◌≤◌, length,
  arith,
}
use fembin.Base.Int.{ℤ, pos, negsuc, ◌+ℤ◌}
use fembin.Exec.{ok, err}
use fembin.Errors.{Exn}
use fembin.Decimal.{precision, multiply, quantize, parse_decimal}
use fembin.Db.{State, on_net}
use fembin.Outbox.Models.{OutboxJob, Outbox, OutboxStatus}
use fembin.Busy.Client.{Headers, call, answer, get_master_xml}
use fembin.Busy.Element.{get_entry, parse_element_xml}
use fembin.Strings.{print_ℕ, print_ℤ}
use fembin.Base.Dict.{lookup}
use fembin.Table.{get_row}
use fembin.Catalog.Snapshot.{apply_live_product_snapshot}
use fembin.Orders.Items.{QuotationItem, QuotationRequest}
use fembin.Orders.Payload.{payload_to_request, request_to_payload}
use fembin.Orders.Queue.{job_type, quotation_payload, list_quotations, is_quotation, is_of_center}
use fembin.Orders.Queue.Listing.{Has, list_quotations_exact}
use fembin.Orders.RoundTrip.{payload_to_request-quotation_payload}
use fembin.Orders.Refresh.{
  Pairwise, IsRefreshed, with_current_item_data, reprice, with_current_item_data_refreshes,
}
use fembin.Orders.Refresh.Amounts.{product_neg, reprice_bounds}
use fembin.Decimal.Rounding.{IsNearest}
use fembin.Orders.Verify.{
  live_data, verify_code, verify_item, verify_items, verify_and_price_items_from_busy,
}
use fembin.Orders.Verify.Gate.{IsVerified, verify_and_price_items_from_busy-IsVerified}
use fembin.Orders.Handler.{post, prepare, handle_add_sale_quotation}
use fembin.Busy.Posts.{logging, posts}
use fembin.Orders.Handler.Posts.{posts_once_after_verifying}
use fembin.Tests.Data.{job, two_jobs, item, request, origin, product, db, busy, repr, accepts}

payload_to_request-quotation_payload_example :
    payload_to_request (quotation_payload request origin) ≡ ok request
payload_to_request-quotation_payload_example = payload_to_request-quotation_payload request origin

abbrev pub quotation : OutboxJob
quotation = record (job 6 (codes "q") OutboxStatus.queued) {
  job_type = job_type;
  payload = quotation_payload request origin;
}

abbrev three_jobs : Outbox
three_jobs = record { jobs = two_jobs.jobs ++ quotation ∷ []; next_id = 7 }

list_quotations_exact_example : Has quotation (list_quotations (some (pos 201)) three_jobs) ↔ (
    Has quotation three_jobs.jobs
    × (is_quotation quotation ≡ true)
    × (is_of_center (pos 201) quotation ≡ true))
list_quotations_exact_example = list_quotations_exact (pos 201) three_jobs quotation

-- as the mirror has it
abbrev current : QuotationItem
current = record item {
  item_name = product.name;
  price = product.price;
  amount = record { neg = false; coeff = 2250; exp = ℤ.negsuc 1 };
}

refreshed :
    with_current_item_data (product ∷ []) request ≡ ok (record request { items = current ∷ [] })
unfolding with_current_item_data get_row quantize multiply codes
refreshed = refl

with_current_item_data_refreshes_example :
    (record request { items = current ∷ [] } ≡ record request { items = current ∷ [] })
    × Pairwise (IsRefreshed (product ∷ [])) (item ∷ []) (current ∷ [])
with_current_item_data_refreshes_example =
    with_current_item_data_refreshes (product ∷ []) request
      (record request { items = current ∷ [] }) refreshed

abbrev pub start : State Unit
start = record { session = record { saved = db; now = db }; net = tt }

abbrev priced : QuotationItem
priced = record current {
  price = record { neg = false; coeff = 125; exp = ℤ.negsuc 0 };
  amount = record { neg = false; coeff = 3125; exp = ℤ.negsuc 1 };
}

passes :
    (verify_and_price_items_from_busy repr accepts busy
      (record request { items = current ∷ [] })
      start).0
    ≡ ok (record request { items = priced ∷ [] })
unfolding verify_and_price_items_from_busy verify_items verify_item verify_code get_master_xml call
    answer live_data reprice quantize multiply parse_element_xml parse_decimal get_entry
    apply_live_product_snapshot lookup text_eq codes print_ℕ print_ℤ
passes = refl

verify_and_price_items_from_busy-IsVerified_example :
    (record request { items = priced ∷ [] } ≡ record request { items = priced ∷ [] })
    × Pairwise (IsVerified repr accepts busy) (current ∷ []) (priced ∷ [])
verify_and_price_items_from_busy-IsVerified_example =
    verify_and_price_items_from_busy-IsVerified repr accepts busy
      (record request { items = current ∷ [] }) (record request { items = priced ∷ [] }) start
      passes

abbrev pub logged : State (Unit × List Headers)
logged = record { session = start.session; net = (tt, []) }

posts_once_after_verifying_example :
    let r =
      handle_add_sale_quotation repr accepts (logging busy) (request_to_payload request) logged in
    ((posts r.1.net.1 ≡ 0) × (e : Exn) × (r.0 ≡ err e))
    ⊎ ((posts r.1.net.1 ≡ 1)
        × (asked : QuotationRequest) × (verified : QuotationRequest) × ((prepare
              (request_to_payload request)
              logged).0
            ≡ ok asked)
        × ((verify_and_price_items_from_busy repr accepts (logging busy) asked logged).0
            ≡ ok verified)
        × Pairwise (IsVerified repr accepts (logging busy)) asked.items verified.items
        × (r
            ≡ on_net
                (post (logging busy) verified)
                (verify_and_price_items_from_busy repr accepts (logging busy) asked logged).1))
posts_once_after_verifying_example =
    posts_once_after_verifying repr accepts busy (request_to_payload request) logged

-- 2.5 x 10.00
twenty_five :
    reprice (codes "Bolt") item.price item
    ≡ ok (record item { item_name = codes "Bolt"; amount = item.amount })
unfolding reprice multiply quantize codes
twenty_five = refl

fits : length (print_ℕ (item.qty.coeff * item.price.coeff)) ≤ precision
unfolding print_ℕ
fits = omega arith

reprice_bounds_example :
    (item.amount.exp ≡ negsuc 1)
    × (item.amount.neg ≡ product_neg item.qty item.price)
    × IsNearest
        (item.qty.exp +ℤ item.price.exp +ℤ pos 2)
        (item.qty.coeff * item.price.coeff)
        item.amount.coeff
reprice_bounds_example =
    reprice_bounds (codes "Bolt") item.price item (record item { item_name = codes "Bolt" }) fits
      twenty_five
