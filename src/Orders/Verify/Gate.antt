-- ===== src/Orders/Verify/Gate.antt =====
-- What a verified quotation is: every item was read from BUSY under its code, has BUSY's name, and
-- BUSY's price.
use fembin.Base.{
  Text, text_eq, text_eq_iff, ◌≡◌, ◌≢◌, none, some, List, [], ◌∷◌, Bool, true, arith, Option-cases,
  inl, inr,
}
use mathlib.Core.Path.{subst}
use fembin.Base.Int.{ℤ}
use fembin.Exec.{ok, Result-cases}
use fembin.Decimal.{Decimal}
use fembin.Db.{State}
use fembin.Busy.Client.{BusyClient, get_master_xml}
use fembin.Busy.Element.{XmlEntry}
use fembin.Orders.Items.{QuotationItem, QuotationRequest}
use fembin.Orders.Refresh.{reprice, Pairwise}
use fembin.Orders.Verify.{
  live_data, verify_code, verify_item, verify_items, verify_and_price_items_from_busy,
}

reprice-ok :
    (name : Text) (price : Decimal) (item item' : QuotationItem)
    → reprice name price item ≡ ok item'
    → (item'.item_name ≡ name) × (item'.price ≡ price)
unfolding reprice
reprice-ok name price item item' h = ground arith

module _ {W : Type 0} (repr : XmlEntry → Text) (accepts : ℤ → Bool) (client : BusyClient W) where
  pub record IsVerified (item item' : QuotationItem) : Type 0 where
    pub code : ℤ
    pub has_code : item.busy_code ≡ some code
    pub before : W
    pub detail_xml : Text
    pub read : (get_master_xml client code before).0 ≡ ok detail_xml
    pub live : live_data repr code detail_xml ≡ ok (item.item_name, item'.price)
    pub same_name : item'.item_name ≡ item.item_name
    pub priced : reprice item.item_name item'.price item ≡ ok item'

  verify_code-IsVerified :
      (code : ℤ) (item item' : QuotationItem) (s : State W)
      → item.busy_code ≡ some code
      → (verify_code repr accepts client code item s).0 ≡ ok item'
      → IsVerified item item'
  unfolding verify_code
  verify_code-IsVerified code item item' s c h =
      elim (Result-cases (get_master_xml client code s.net).0) [
        | inr (e, failed) ↦ absurd (ground arith)
        | inl (detail_xml, got) ↦ elim (Result-cases (live_data repr code detail_xml)) [
          | inr (e, bad) ↦ absurd (ground arith)
          | inl ((name, price), live) ↦
              let checked : (text_eq name item.item_name ≡ true)
                  × (reprice item.item_name price item ≡ ok item') =
                ground arith in
              let kept = reprice-ok item.item_name price item item' checked.1 in
              record {
                code = code;
                has_code = c;
                before = s.net;
                detail_xml = detail_xml;
                read = got;
                live = ground (arith, text_eq_iff name item.item_name);
                same_name = kept.0;
                priced = ground arith;
              }
        ]
      ]

  verify_item_code :
      (code : ℤ) (item : QuotationItem) (s : State W)
      → item.busy_code ≡ some code
      → verify_item repr accepts client item s ≡ verify_code repr accepts client code item s
  unfolding verify_item
  verify_item_code code item s e = ground arith

  verify_item_no_code :
      (item item' : QuotationItem) (s : State W)
      → item.busy_code ≡ none
      → (verify_item repr accepts client item s).0 ≢ ok item'
  unfolding verify_item
  verify_item_no_code item item' s e = ground arith

  verify_item-IsVerified :
      (item item' : QuotationItem) (s : State W)
      → (verify_item repr accepts client item s).0 ≡ ok item'
      → IsVerified item item'
  verify_item-IsVerified item item' s h = elim (Option-cases item.busy_code) [
    | inl e ↦ absurd (verify_item_no_code item item' s e h)
    | inr (code, e) ↦
        verify_code-IsVerified code item item' s e (rw (← verify_item_code code item s e) h)
  ]

  verify_items-IsVerified :
      (items items' : List QuotationItem) (s : State W)
      → (verify_items repr accepts client items s).0 ≡ ok items'
      → Pairwise IsVerified items items'
  unfolding verify_items
  verify_items-IsVerified [] [] s h = tt
  verify_items-IsVerified [] (y ∷ ys) s h = absurd (ground arith)
  verify_items-IsVerified (x ∷ xs) items' s h =
      elim (Result-cases (verify_item repr accepts client x s).0) [
        | inr (e, failed) ↦ absurd (ground arith)
        | inl (y, one) ↦
            let s' = (verify_item repr accepts client x s).1 in
            elim (Result-cases (verify_items repr accepts client xs s').0) [
              | inr (e, failed) ↦ absurd (ground arith)
              | inl (ys, rest) ↦
                  let both : y ∷ ys ≡ items' = ground arith in
                  subst (Pairwise IsVerified (x ∷ xs)) both
                    (verify_item-IsVerified x y s one, verify_items-IsVerified xs ys s' rest)
            ]
      ]

  -- A quotation that passes the verification keeps everything but its items; each item was read
  -- back from BUSY under its own code, BUSY's name for it is the name that is sent, and its price
  -- is BUSY's, with the amount that quantity and price make.
  pub verify_and_price_items_from_busy-IsVerified :
      (request request' : QuotationRequest) (s : State W)
      → (verify_and_price_items_from_busy repr accepts client request s).0 ≡ ok request'
      → (request' ≡ record request { items = request'.items })
        × Pairwise IsVerified request.items request'.items
  unfolding verify_and_price_items_from_busy
  verify_and_price_items_from_busy-IsVerified request request' s h =
      elim (Result-cases (verify_items repr accepts client request.items s).0) [
        | inr (e, failed) ↦ absurd (ground arith)
        | inl (items, e) ↦
            let same : record request { items = items } ≡ request' = ground arith in
            let them : items ≡ request'.items = ground arith in
            (
              ground arith,
              subst (Pairwise IsVerified request.items) them
                  (verify_items-IsVerified request.items items s e),
            )
      ]
