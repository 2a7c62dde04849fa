-- ===== src/Woo/Push/Counts.antt =====
-- The counters of a push add up to the products that it looked at.
use fembin.Base.{ℕ, ◌+◌, ◌≡◌, Text, List, [], ◌∷◌, Bool, arith, length, inl, inr, not}
use fembin.Exec.{ok, Result-cases}
use fembin.Db.{Product, State}
use fembin.Woo.Client.{WooClient}
use fembin.Woo.Push.{
  Action, WooPushResult, no_products, count, push_product, push_products, to_push,
  get_woo_sync_state, or_fresh, push_products_to_woocommerce,
}

abbrev pub total : WooPushResult → ℕ
total r = r.seeded + r.created + r.updated + r.skipped + r.failed

total-count : (action : Action) (r : WooPushResult) → total (count action r) ≡ total r + 1
unfolding count
total-count action r = ground arith

module _ {W : Type 0} (woo : WooClient W) where
  push_products-total :
      (seed_mode : Bool) (status : Text) (products : List Product) (start result : WooPushResult)
      (s : State W)
      → (push_products woo seed_mode status start products s).0 ≡ ok result
      → total result ≡ total start + length products
  unfolding push_products
  push_products-total seed_mode status [] start result s e = ground arith
  push_products-total seed_mode status (p ∷ ps) start result s e =
      elim (Result-cases (push_product woo seed_mode status p s).0) [
        | inr (x, failed) ↦ absurd (ground arith)
        | inl (action, done) ↦
            let s' = (push_product woo seed_mode status p s).1 in
            ground (
              arith,
              total-count action start,
              push_products-total seed_mode status ps (count action start) result s',
            )
      ]

  -- The five counters of a push of the catalog that returns add up to the number of products that
  -- were active or linked to the store.
  pub push_products_to_woocommerce-total :
      (now : ℕ) (status : Text) (s : State W) (result : WooPushResult)
      → (push_products_to_woocommerce woo now status s).0 ≡ ok result
      → total result ≡ length (to_push s.session.now.products)
  unfolding push_products_to_woocommerce get_woo_sync_state
  push_products_to_woocommerce-total now status s result e =
      let begun : State W = record s {
        session = record s.session { now = (get_woo_sync_state s.session.now).1 };
      } in
      let seed_mode = not (or_fresh s.session.now.woo_sync_state).seeded in
      let products = to_push s.session.now.products in
      elim (Result-cases (push_products woo seed_mode status no_products products begun).0) [
        | inr (x, failed) ↦ absurd (ground arith)
        | inl (r, done) ↦
            ground (arith, push_products-total seed_mode status products no_products r begun done)
      ]
