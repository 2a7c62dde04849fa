-- ===== src/Woo/ByCode.antt =====
-- app/domain/catalog/woo_sync.py: `push_products_by_code`. `str_of` is Python's text of an exception.
pub mod Answers
use fembin.Base.{
  ℕ, Text, codes, Option, none, some, List, [], ◌∷◌, Bool, true, false, not, ◌&&◌, if◌then◌else◌,
}
use fembin.Base.Int.{ℤ}
use fembin.Exec.{Exec, Result, ok, err, pure, lift, gets, modify, ◌>>=◌, ◌>>◌}
use fembin.Errors.{Exn, woo_error, http_error}
use fembin.Table.{get_row}
use fembin.Db.{Db, Product, Session, State, rollback, on_net}
use fembin.Catalog.Stamps.{on_now, commit_session}
use fembin.Woo.Client.{WooClient, update_product}
use fembin.Woo.Payload.{published_status, sync_payload}
use fembin.Woo.Push.{
  push_new, ensure_category, save_product, republished, is_in_step, Action, updated, skipped,
}

pub data ItemAction : Type 0 where
  did : Action → ItemAction
  not_found : ItemAction

pub record WooPushItemResult : Type 0 where
  pub busy_code : ℤ
  pub name : Text
  pub action : ItemAction
  pub error : Option Text

abbrev pub item_result : ℤ → Text → ItemAction → WooPushItemResult
item_result code name action = record {
  busy_code = code;
  name = name;
  action = action;
  error = none;
}

abbrev pub republish_status : Bool → Option Text
republish_status true = some published_status
republish_status false = none

module _ {W : Type 0} (woo : WooClient W) where
  unfoldable pub push_again : ℤ → Product → Exec Exn (State W) Action
  push_again woo_id product = do
    category_id ← ensure_category woo product.item_group
    on_net (
        update_product woo woo_id
          (sync_payload product category_id (republish_status product.woo_hidden)))
    on_now (modify (save_product product.busy_code republished))
    commit_session
    pure updated

  unfoldable pub push_first : Text → Product → Exec Exn (State W) Action
  push_first status product = do action ← push_new woo status product; commit_session; pure action

  -- the body of the `try`
  unfoldable pub push_picked : Text → Product → Exec Exn (State W) Action
  push_picked status product = elim product.woo_product_id [
    | none ↦ push_first status product
    | some woo_id ↦ elim (not product.woo_hidden && is_in_step product) [
      | true ↦ pure skipped
      | false ↦ push_again woo_id product
    ]
  ]

  -- `except (WooCommerceError, httpx.HTTPError)`: a rollback, and the error in the result
  unfoldable pub settled :
      (Exn → Text) → Product → Result Exn Action × State W → Result Exn WooPushItemResult × State W
  settled str_of product (ok action, s) =
      (ok (item_result product.busy_code product.name (did action)), s)
  settled str_of product (err (woo_error status message), s) = (
    ok (record {
      busy_code = product.busy_code;
      name = product.name;
      action = did Action.failed;
      error = some (str_of (woo_error status message));
    }),
    record s { session = rollback s.session },
  )
  settled str_of product (err http_error, s) = (
    ok (record {
      busy_code = product.busy_code;
      name = product.name;
      action = did Action.failed;
      error = some (str_of http_error);
    }),
    record s { session = rollback s.session },
  )
  settled str_of product (err e, s) = (err e, s)

  unfoldable pub push_code : (Exn → Text) → Text → ℤ → Exec Exn (State W) WooPushItemResult
  push_code str_of status code s = elim (get_row (λ p. p.busy_code) code s.session.now.products) [
    | none ↦ (ok (item_result code [] not_found), s)
    | some product ↦ elim product.is_active [
      | false ↦ (ok (item_result code product.name (did skipped)), s)
      | true ↦ settled str_of product (push_picked status product s)
    ]
  ]

  unfoldable pub push_products_by_code :
      (Exn → Text) → Text → List ℤ → Exec Exn (State W) (List WooPushItemResult)
  push_products_by_code str_of status [] = pure []
  push_products_by_code str_of status (code ∷ more) = do
    result ← push_code str_of status code
    results ← push_products_by_code str_of status more
    pure (result ∷ results)
