-- ===== src/Woo/Push/SeedMode.antt =====
-- In seed mode nothing is sent for products that are not linked.
use fembin.Base.{ℕ, ◌+◌, ◌≡◌, refl, Text, none, List, [], ◌∷◌, true, false, arith, length, All}
use fembin.Exec.{ok}
use fembin.Db.{Product, State}
use fembin.Woo.Client.{WooClient}
use fembin.Woo.Push.{
  Action, WooPushResult, no_products, count, push_product, push_products, to_push,
  get_woo_sync_state, or_fresh, push_products_to_woocommerce,
}

All-to_push :
    (ps : List Product)
    → All (λ p. p.woo_product_id ≡ none) ps
    → All (λ p. p.woo_product_id ≡ none) (to_push ps)
unfolding to_push
All-to_push [] h = tt
All-to_push (p ∷ ps) h = ground (arith, All-to_push ps h.1)

module _ {W : Type 0} (woo : WooClient W) where
  push_products_seeds :
      (status : Text) (products : List Product) (start : WooPushResult) (s : State W)
      → All (λ p. p.woo_product_id ≡ none) products
      → push_products woo true status start products s
        ≡ (ok (record start { seeded = start.seeded + length products }), s)
  unfolding push_products push_product count
  push_products_seeds status [] start s h = ground arith
  push_products_seeds status (p ∷ ps) start s h =
      ground (arith, h.0, push_products_seeds status ps (count Action.seeded start) s h.1)

  -- As long as the store is not seeded, a push of a mirror without linked products sends nothing:
  -- the outside and every product stay as they were, and each active product is counted as seeded.
  pub push_products_to_woocommerce_seeds :
      (now : ℕ) (status : Text) (s : State W)
      → (or_fresh s.session.now.woo_sync_state).seeded ≡ false
      → All (λ p. p.woo_product_id ≡ none) s.session.now.products
      → let (r, t) = push_products_to_woocommerce woo now status s in
        (r ≡ ok (record no_products { seeded = length (to_push s.session.now.products) }))
        × (t.net ≡ s.net)
        × (t.session.now.products ≡ s.session.now.products)
  unfolding push_products_to_woocommerce get_woo_sync_state
  push_products_to_woocommerce_seeds now status s unseeded h =
      let begun : State W = record s {
        session = record s.session { now = (get_woo_sync_state s.session.now).1 };
      } in
      let products = to_push s.session.now.products in
      let all =
        push_products_seeds status products no_products begun
          (All-to_push s.session.now.products h) in
      rw (unseeded, all) (ground arith, refl, refl)
