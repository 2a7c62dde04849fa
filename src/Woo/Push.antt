-- ===== src/Woo/Push.antt =====
-- app/domain/catalog/woo_sync.py: `push_products_to_woocommerce`, and the state of the store's sync.
-- The ORM's objects are the rows of the session: a change of a product is an UPDATE of its row. The
-- id of a category is read as a number before it is stored, where Python does so afterwards.
pub mod Counts
pub mod SeedMode
pub mod Atomic
use fembin.Base.{
  ℕ, ◌+◌, Text, codes, text_eq, Option, none, some, List, [], ◌∷◌, Bool, true, false, not, ◌&&◌,
  ◌||◌, if◌then◌else◌,
}
use fembin.Base.Int.{ℤ}
use fembin.Exec.{Exec, Result, ok, err, pure, lift, gets, modify, ◌>>=◌, ◌>>◌}
use fembin.Errors.{Exn, woo_error, http_error}
use fembin.Decimal.{Decimal, decimal_eq}
use fembin.Strings.{print_ℤ}
use fembin.Json.{Json, str, obj, end, field}
use fembin.Table.{update_row}
use fembin.Table.Named.{get_named, upsert_named}
use fembin.Db.{Db, Category, Product, WooSyncState, Session, State, on_net}
use fembin.Catalog.Stamps.{on_now, commit_session}
use fembin.Woo.Client.{
  WooClient, create_product, find_product_by_sku, update_product, find_category_by_name,
  create_category,
}
use fembin.Woo.Payload.{hidden_status, published_status, create_payload, sync_payload, id_of}

pub data Action : Type 0 where
  seeded created updated skipped failed : Action

pub record WooPushResult : Type 0 where
  pub seeded : ℕ
  pub created : ℕ
  pub updated : ℕ
  pub skipped : ℕ
  pub failed : ℕ

abbrev pub no_products : WooPushResult
no_products = record { seeded = 0; created = 0; updated = 0; skipped = 0; failed = 0 }

unfoldable pub count : Action → WooPushResult → WooPushResult
count seeded r = record r { seeded = r.seeded + 1 }
count created r = record r { created = r.created + 1 }
count updated r = record r { updated = r.updated + 1 }
count skipped r = record r { skipped = r.skipped + 1 }
count failed r = record r { failed = r.failed + 1 }

abbrev pub fresh_state : WooSyncState
fresh_state = record {
  seeded = false;
  last_run_at = none;
  last_seeded = 0;
  last_created = 0;
  last_updated = 0;
  last_skipped = 0;
  last_failed = 0;
}

abbrev pub or_fresh : Option WooSyncState → WooSyncState
or_fresh none = fresh_state
or_fresh (some state) = state

-- the one row of the state, added if it is missing
unfoldable pub get_woo_sync_state : Exec Exn Db WooSyncState
get_woo_sync_state db =
    let state = or_fresh db.woo_sync_state in (ok state, record db { woo_sync_state = some state })

unfoldable pub set_seeded : {W : Type 0} → Exec Exn (State W) Unit
set_seeded = do
  state ← on_now get_woo_sync_state
  on_now (modify (λ db. record db { woo_sync_state = some (record state { seeded = true }) }))
  commit_session

-- a change of the product's row
unfoldable pub save_product : ℤ → (Product → Product) → Db → Db
save_product code change db = record db {
  products = update_row (λ p. p.busy_code) code change db.products;
}

abbrev pub linked : ℤ → Product → Product
linked woo_id p = record p {
  woo_product_id = some woo_id;
  woo_synced_price = some p.price;
  woo_synced_name = some p.name;
  woo_hidden = false;
}

abbrev pub in_step : Product → Product
in_step p = record p { woo_synced_price = some p.price; woo_synced_name = some p.name }

abbrev pub republished : Product → Product
republished p = record (in_step p) { woo_hidden = false }

unfoldable pub is_in_step : Product → Bool
is_in_step p = elim p.woo_synced_price [
  | none ↦ false
  | some price ↦ elim p.woo_synced_name [
    | none ↦ false
    | some name ↦ decimal_eq price p.price && text_eq name p.name
  ]
]

unfoldable pub set_category_id : Text → ℤ → Db → Db
set_category_id group woo_id db = record db {
  categories =
      upsert_named (λ c. c.busy_group_name) group
        (record { busy_group_name = group; woo_category_id = some woo_id })
        (λ c. record c { woo_category_id = some woo_id }) db.categories;
}

abbrev pub category_id_of : Option Category → Option ℤ
category_id_of none = none
category_id_of (some category) = category.woo_category_id

-- `except (WooCommerceError, httpx.HTTPError)`
unfoldable pub or_failed : Result Exn Action → Result Exn Action
or_failed (ok action) = ok action
or_failed (err (woo_error status message)) = ok failed
or_failed (err http_error) = ok failed
or_failed (err e) = err e

unfoldable pub attempt : {W : Type 0} → Exec Exn (State W) Action → Exec Exn (State W) Action
unfolding or_failed
attempt m s = let (r, t) = m s in (or_failed r, t)

-- select(Product).where(or_(is_active, woo_product_id is not null))
abbrev pub is_linked : Product → Bool
is_linked p = elim p.woo_product_id [ none ↦ false | some i ↦ true ]

unfoldable pub to_push : List Product → List Product
to_push [] = []
to_push (p ∷ ps) = let rest = to_push ps in if p.is_active || is_linked p then p ∷ rest else rest

module _ {W : Type 0} (woo : WooClient W) where
  -- the product of the store that has the SKU, brought up to date, or a new one
  unfoldable pub create_or_adopt_product : Product → ℤ → Text → Exec Exn W (Json × Bool)
  create_or_adopt_product product category_id status = do
    existing ← find_product_by_sku woo (print_ℤ product.busy_code)
    elim existing [
      | some found ↦ do
        woo_id ← lift (id_of found)
        changed ← update_product woo woo_id (sync_payload product category_id (some status))
        pure (changed, false)
      | none ↦ do
        made ← create_product woo (create_payload product category_id status)
        pure (made, true)
    ]

  unfoldable pub new_category_id : Text → Exec Exn W ℤ
  new_category_id group = do
    existing ← find_category_by_name woo group
    elim existing [
      | some (field k j d) ↦ lift (id_of (obj (field k j d)))
      | _ ↦ do made ← create_category woo group; lift (id_of made)
    ]

  unfoldable pub ensure_category : Text → Exec Exn (State W) ℤ
  ensure_category group = do
    known ←
        gets
          (λ s. category_id_of (get_named (λ c. c.busy_group_name) group s.session.now.categories))
    elim known [
      | some woo_id ↦ pure woo_id
      | none ↦ do
        woo_id ← on_net (new_category_id group)
        on_now (modify (set_category_id group woo_id))
        pure woo_id
    ]

  -- a product that the store does not know
  unfoldable pub push_new : Text → Product → Exec Exn (State W) Action
  push_new status product = do
    category_id ← ensure_category product.item_group
    result ← on_net (create_or_adopt_product product category_id status)
    woo_id ← lift (id_of result.0)
    on_now (modify (save_product product.busy_code (linked woo_id)))
    pure (if result.1 then created else updated)

  unfoldable pub hide : ℤ → Product → Exec Exn (State W) Action
  hide woo_id product = do
    on_net (update_product woo woo_id (obj (field (codes "status") (str hidden_status) end)))
    on_now (modify (save_product product.busy_code (λ p. record p { woo_hidden = true })))
    pure updated

  unfoldable pub push_change :
      ℤ → Option Text → (Product → Product) → Product → Exec Exn (State W) Action
  push_change woo_id status change product = do
    category_id ← ensure_category product.item_group
    on_net (update_product woo woo_id (sync_payload product category_id status))
    on_now (modify (save_product product.busy_code change))
    pure updated

  -- one product of the loop that the store knows
  unfoldable pub push_linked : ℤ → Product → Exec Exn (State W) Action
  push_linked woo_id product = elim product.is_active [
    | false ↦ elim product.woo_hidden [
      | true ↦ pure skipped
      | false ↦ attempt (hide woo_id product)
    ]
    | true ↦ elim product.woo_hidden [
      | true ↦ attempt (push_change woo_id (some published_status) republished product)
      | false ↦ elim (is_in_step product) [
        | true ↦ pure skipped
        | false ↦ attempt (push_change woo_id none in_step product)
      ]
    ]
  ]

  unfoldable pub push_product : Bool → Text → Product → Exec Exn (State W) Action
  push_product seed_mode status product = elim product.woo_product_id [
    | some woo_id ↦ push_linked woo_id product
    | none ↦ elim seed_mode [ true ↦ pure seeded | false ↦ attempt (push_new status product) ]
  ]

  unfoldable pub push_products :
      Bool → Text → WooPushResult → List Product → Exec Exn (State W) WooPushResult
  push_products seed_mode status result [] = pure result
  push_products seed_mode status result (product ∷ products) = do
    action ← push_product seed_mode status product
    push_products seed_mode status (count action result) products

  abbrev pub recorded : ℕ → WooPushResult → WooSyncState → WooSyncState
  recorded now result state = record state {
    last_run_at = some now;
    last_seeded = result.seeded;
    last_created = result.created;
    last_updated = result.updated;
    last_skipped = result.skipped;
    last_failed = result.failed;
  }

  unfoldable pub push_products_to_woocommerce : ℕ → Text → Exec Exn (State W) WooPushResult
  push_products_to_woocommerce now status = do
    state ← on_now get_woo_sync_state
    products ← gets (λ s. to_push s.session.now.products)
    result ← push_products (not state.seeded) status no_products products
    on_now (modify (λ db. record db { woo_sync_state = some (recorded now result state) }))
    commit_session
    pure result
