-- ===== src/Orders/Handler/Posts.antt =====
-- What a job of a sale quotation sends to BUSY: at most one voucher, and only once every item is
-- verified.
use fembin.Base.{◌+◌, ◌≡◌, ◌⊎◌, refl, Text, List, [], ◌∷◌, Bool, arith, inl, inr, Option-cases}
use fembin.Base.Int.{ℤ}
use fembin.Exec.{ok, err, pure, >>=-keeps, Result-cases}
use fembin.Errors.{Exn}
use fembin.Json.{Json}
use fembin.Db.{State, on_net}
use fembin.Busy.Client.{BusyClient, Headers, get_master_xml, add_voucher}
use fembin.Busy.Element.{XmlEntry}
use fembin.Busy.VchNumbering.{get_next_vch_no}
use fembin.Busy.Constants.{vch_type, sale_quotation}
use fembin.Orders.Items.{QuotationItem, QuotationRequest, build_quotation_xml}
use fembin.Orders.Payload.{payload_to_request}
use fembin.Orders.Refresh.{Pairwise}
use fembin.Orders.Verify.Gate.{IsVerified, verify_and_price_items_from_busy-IsVerified}
use fembin.Orders.Verify.{
  live_data, verify_code, verify_item, verify_items, verify_and_price_items_from_busy,
}
use fembin.Orders.Handler.{posted, prepare, post, handle_add_sale_quotation}
use fembin.Busy.Posts.{
  logging, posts, posts-get_master_xml, posts-add_voucher, posts-get_next_vch_no,
}

-- `post` makes at most one, and one if it returns
module _ {W : Type 0} (client : BusyClient W) where
  posts-post :
      (w : W) (log : List Headers) (request : QuotationRequest)
      → let after = posts (post (logging client) request (w, log)).1.1 in
        (after ≡ posts log + 1)
        ⊎ ((after ≡ posts log) × (e : Exn) × ((post (logging client) request (w, log)).0 ≡ err e))
  unfolding post
  posts-post w log request =
      let number =
        get_next_vch_no (logging client) (vch_type sale_quotation) request.vch_no_prefix in
      let kept =
        posts-get_next_vch_no client w log (vch_type sale_quotation) request.vch_no_prefix in
      elim (Result-cases (number (w, log)).0) [
        | inr (e, failed) ↦ inr (ground (arith, failed, kept), e, ground (arith, failed))
        | inl (vch_no, got) ↦
            let t = (number (w, log)).1 in
            let xml = build_quotation_xml request vch_no in
            let grown = posts-add_voucher client t.0 t.1 (vch_type sale_quotation) xml in
            let kept' =
              >>=-keeps (add_voucher (logging client) (vch_type sale_quotation) xml)
                (λ vch_code. pure (posted vch_code vch_no)) t (λ a u. refl) in
            inl (ground (arith, got, kept, grown, kept'))
      ]

module _ {W : Type 0} (repr : XmlEntry → Text) (accepts : ℤ → Bool) (client : BusyClient W) where
  posts-verify_code :
      (code : ℤ) (item : QuotationItem) (s : State (W × List Headers))
      → posts (verify_code repr accepts (logging client) code item s).1.net.1 ≡ posts s.net.1
  unfolding verify_code
  posts-verify_code code item s =
      let kept = posts-get_master_xml client s.net.0 s.net.1 code in
      elim (Result-cases (get_master_xml (logging client) code s.net).0) [
        | inr (e, failed) ↦ ground (arith, failed, kept)
        | inl (detail_xml, got) ↦ elim (Result-cases (live_data repr code detail_xml)) [
          | inr (e, bad) ↦ ground (arith, got, bad, kept)
          | inl ((name, price), live) ↦ ground (arith, got, live, kept)
        ]
      ]

  posts-verify_item :
      (item : QuotationItem) (s : State (W × List Headers))
      → posts (verify_item repr accepts (logging client) item s).1.net.1 ≡ posts s.net.1
  unfolding verify_item
  posts-verify_item item s = elim (Option-cases item.busy_code) [
    | inl e ↦ ground (arith, e)
    | inr (code, e) ↦ ground (arith, e, posts-verify_code code item s)
  ]

  posts-verify_items :
      (items : List QuotationItem) (s : State (W × List Headers))
      → posts (verify_items repr accepts (logging client) items s).1.net.1 ≡ posts s.net.1
  unfolding verify_items
  posts-verify_items [] s = refl
  posts-verify_items (x ∷ xs) s =
      let s' = (verify_item repr accepts (logging client) x s).1 in
      let here = posts-verify_item x s in
      elim (Result-cases (verify_item repr accepts (logging client) x s).0) [
        | inr (e, failed) ↦ ground (arith, failed, here)
        | inl (y, one) ↦
            let rest = posts-verify_items xs s' in
            elim (Result-cases (verify_items repr accepts (logging client) xs s').0) [
              | inr (e, failed) ↦ ground (arith, one, failed, here, rest)
              | inl (ys, e) ↦ ground (arith, one, e, here, rest)
            ]
      ]

  pub posts-verify :
      (request : QuotationRequest) (s : State (W × List Headers))
      → posts (verify_and_price_items_from_busy repr accepts (logging client) request s).1.net.1
        ≡ posts s.net.1
  unfolding verify_and_price_items_from_busy
  posts-verify request s =
      let kept = posts-verify_items request.items s in
      elim (Result-cases (verify_items repr accepts (logging client) request.items s).0) [
        | inr (e, failed) ↦ ground (arith, failed, kept)
        | inl (items, e) ↦ ground (arith, e, kept)
      ]

  prepare_keeps : (payload : Json) (s : State (W × List Headers)) → (prepare payload s).1 ≡ s
  unfolding prepare
  prepare_keeps payload s = elim (Result-cases (payload_to_request payload)) [
    | inl (request, e) ↦ ground (arith, e)
    | inr (x, e) ↦ ground (arith, e)
  ]

  -- The job of a quotation sends at most one voucher to BUSY. Either none was sent and the job ends
  -- in an error, or exactly one was; then the payload was read and refreshed, the verification of
  -- that returned a quotation, every item of which was verified against BUSY, and the job went on
  -- to post exactly this quotation.
  pub posts_once_after_verifying :
      (payload : Json) (s : State (W × List Headers))
      → let r = handle_add_sale_quotation repr accepts (logging client) payload s in
        ((posts r.1.net.1 ≡ posts s.net.1) × (e : Exn) × (r.0 ≡ err e))
        ⊎ ((posts r.1.net.1 ≡ posts s.net.1 + 1)
            × (request : QuotationRequest) × (verified : QuotationRequest) × ((prepare payload s).0
                ≡ ok request)
            × ((verify_and_price_items_from_busy repr accepts (logging client) request s).0
                ≡ ok verified)
            × Pairwise (IsVerified repr accepts (logging client)) request.items verified.items
            × (r
                ≡ on_net
                    (post (logging client) verified)
                    (verify_and_price_items_from_busy repr accepts (logging client) request s).1))
  unfolding handle_add_sale_quotation
  posts_once_after_verifying payload s =
      let unmoved = prepare_keeps payload s in
      elim (Result-cases (prepare payload s).0) [
        | inr (e, failed) ↦ inl (ground (arith, failed, unmoved), e, ground (arith, failed))
        | inl (request, read) ↦
            let verify = verify_and_price_items_from_busy repr accepts (logging client) in
            let kept = posts-verify request s in
            elim (Result-cases (verify request s).0) [
              | inr (e, failed) ↦ inl (
                ground (arith, read, failed, unmoved, kept),
                e,
                ground (arith, read, failed, unmoved),
              )
              | inl (verified, passed) ↦
                  let t = (verify request s).1.net in
                  elim (posts-post client t.0 t.1 verified) [
                    | inl grown ↦ inr (
                      ground (arith, read, passed, unmoved, kept, grown),
                      request,
                      verified,
                      read,
                      passed,
                      (verify_and_price_items_from_busy-IsVerified repr accepts (logging client)
                          request verified s passed).1,
                      ground (arith, read, passed, unmoved),
                    )
                    | inr (same, e, failed) ↦ inl (
                      ground (arith, read, passed, unmoved, kept, same),
                      e,
                      ground (arith, read, passed, unmoved, failed),
                    )
                  ]
            ]
      ]
