-- ===== src/Woo/Push/Atomic.antt =====
-- `push_products_to_woocommerce` as one transaction: it commits at its end and nowhere before.
use fembin.Json.{str, obj, end, field}
use fembin.Base.{
  Option, codes, ℕ, ◌≡◌, refl, ◌∙◌, Text, none, some, List, [], ◌∷◌, Bool, true, Option-cases, inl,
  inr, arith, not,
}
use fembin.Base.Int.{ℤ}
use fembin.Exec.{pure, lift, gets, modify, ◌>>=◌, >>=-rel, Result-cases}
use fembin.Table.Named.{get_named}
use fembin.Db.{Product, State, on_net}
use fembin.Catalog.Stamps.{on_now, commit_session}
use fembin.Catalog.Transaction.{Outcome, >>=-Outcome}
use fembin.Woo.Client.{WooClient, update_product}
use fembin.Woo.Payload.{id_of, sync_payload, published_status, hidden_status}
use fembin.Woo.Push.{
  WooPushResult, recorded, no_products, count, to_push, category_id_of, republished, in_step,
  attempt, create_or_adopt_product, new_category_id, ensure_category, push_new, hide, push_change,
  push_linked, push_product, push_products, get_woo_sync_state, push_products_to_woocommerce,
}

module _ {W : Type 0} (woo : WooClient W) where
  abbrev SameSaved : State W → State W → Type 0
  SameSaved s t = t.session.saved ≡ s.session.saved

  SameSaved-trans : (s t u : State W) → SameSaved s t → SameSaved t u → SameSaved s u
  SameSaved-trans s t u f g = g ∙ f

  ensure_category-SameSaved :
      (group : Text) (s : State W) → SameSaved s (ensure_category woo group s).1
  unfolding ensure_category
  ensure_category-SameSaved group s =
      elim (Option-cases
        (category_id_of (get_named (λ c. c.busy_group_name) group s.session.now.categories))) [
          | inr (woo_id, e) ↦ ground (arith, e)
          | inl e ↦ elim (Result-cases (new_category_id woo group s.net).0) [
            | inl (woo_id, made) ↦ ground (arith, e, made)
            | inr (x, failed) ↦ ground (arith, e, failed)
          ]
        ]

  push_new-SameSaved :
      (status : Text) (product : Product) (s : State W)
      → SameSaved s (push_new woo status product s).1
  unfolding push_new
  push_new-SameSaved status product =
      >>=-rel SameSaved SameSaved-trans (ensure_category woo product.item_group) _
        (ensure_category-SameSaved product.item_group)
        (λ category_id.
          >>=-rel SameSaved SameSaved-trans
            (on_net (create_or_adopt_product woo product category_id status)) _ (λ s. refl)
            (λ result.
              >>=-rel SameSaved SameSaved-trans (lift (id_of result.0)) _ (λ s. refl)
                (λ woo_id s. refl)))

  hide-SameSaved :
      (woo_id : ℤ) (product : Product) (s : State W) → SameSaved s (hide woo woo_id product s).1
  unfolding hide
  hide-SameSaved woo_id product =
      >>=-rel SameSaved SameSaved-trans
        (on_net (update_product woo woo_id (obj (field (codes "status") (str hidden_status) end))))
        _ (λ s. refl) (λ changed s. refl)

  push_change-SameSaved :
      (woo_id : ℤ) (status : Option Text) (change : Product → Product) (product : Product)
      (s : State W)
      → SameSaved s (push_change woo woo_id status change product s).1
  unfolding push_change
  push_change-SameSaved woo_id status change product =
      >>=-rel SameSaved SameSaved-trans (ensure_category woo product.item_group) _
        (ensure_category-SameSaved product.item_group)
        (λ category_id.
          >>=-rel SameSaved SameSaved-trans
            (on_net (update_product woo woo_id (sync_payload product category_id status))) _
            (λ s. refl) (λ changed s. refl))

  push_linked-SameSaved :
      (woo_id : ℤ) (product : Product) (s : State W)
      → SameSaved s (push_linked woo woo_id product s).1
  unfolding push_linked attempt
  push_linked-SameSaved woo_id product s = ground (
    arith,
    hide-SameSaved woo_id product s,
    push_change-SameSaved woo_id (some published_status) republished product s,
    push_change-SameSaved woo_id none in_step product s,
  )

  push_product-SameSaved :
      (seed_mode : Bool) (status : Text) (product : Product) (s : State W)
      → SameSaved s (push_product woo seed_mode status product s).1
  unfolding push_product attempt
  push_product-SameSaved seed_mode status product s = elim (Option-cases product.woo_product_id) [
    | inl e ↦ ground (arith, e, push_new-SameSaved status product s)
    | inr (woo_id, e) ↦ ground (arith, e, push_linked-SameSaved woo_id product s)
  ]

  push_products-SameSaved :
      (seed_mode : Bool) (status : Text) (result : WooPushResult) (products : List Product)
      (s : State W)
      → SameSaved s (push_products woo seed_mode status result products s).1
  unfolding push_products
  push_products-SameSaved seed_mode status result [] s = refl
  push_products-SameSaved seed_mode status result (p ∷ ps) s =
      >>=-rel SameSaved SameSaved-trans (push_product woo seed_mode status p) _
        (push_product-SameSaved seed_mode status p)
        (λ action. push_products-SameSaved seed_mode status (count action result) ps) s

  -- a push that raises has committed nothing, and one that returns all that it wrote
  pub push_products_to_woocommerce_atomic :
      (now : ℕ) (status : Text) (s : State W)
      → Outcome (λ r. true) s (push_products_to_woocommerce woo now status s)
  unfolding push_products_to_woocommerce
  push_products_to_woocommerce_atomic now status =
      >>=-Outcome (λ r. true) (on_now get_woo_sync_state) _ (λ s. refl)
        (λ state.
          >>=-Outcome (λ r. true) (gets (λ s. to_push s.session.now.products)) _ (λ s. refl)
            (λ products.
              >>=-Outcome (λ r. true)
                (push_products woo (not state.seeded) status no_products products)
                (λ result.
                  on_now (
                    modify
                      (λ db. record db { woo_sync_state = some (recorded woo now result state) }))
                  >>= λ _. commit_session >>= λ _. pure result)
                (push_products-SameSaved (not state.seeded) status no_products products)
                (λ result s. refl)))
