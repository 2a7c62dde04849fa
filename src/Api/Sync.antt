-- ===== src/Api/Sync.antt =====
-- app/api/v1/sync.py: the state of the sync, and the routes that start one.
use fembin.Base.{ℕ, Text, codes, some, List, [], ◌∷◌, ◌++◌, Bool}
use fembin.Base.Int.{ℤ}
use fembin.Exec.{Exec, Result, ok, err}
use fembin.Errors.{Exn}
use fembin.Table.Order.{Collation}
use fembin.Db.{Session, State, WooSyncState, commit}
use fembin.Auth.Tokens.{Jwt, JwtSettings}
use fembin.Catalog.Queries.{SyncStatusEntry, get_sync_status}
use fembin.Catalog.Scheduler.{Settings}
use fembin.Woo.Client.{WooClient}
use fembin.Woo.Push.{or_fresh}
use fembin.Woo.ByCode.{WooPushItemResult, push_products_by_code}
use fembin.Api.{HttpError, http, raised}
use fembin.Api.Accounts.{for_superadmin}

pub record SyncStatusResponse : Type 0 where
  pub busy : List SyncStatusEntry
  pub woocommerce : WooSyncState

-- Any caller may ask; the row of the store's state is added if it is missing.
unfoldable pub sync_status_route : Collation → Session → SyncStatusResponse × Session
sync_status_route collation s =
    let state = or_fresh s.now.woo_sync_state in
    (
      record { busy = get_sync_status collation s; woocommerce = state },
      commit (record s { now = record s.now { woo_sync_state = some state } }),
    )

-- the runs of `run_catalog_sync` that wait for the response to be sent, each with its `full`
unfoldable pub trigger_products_sync :
    Jwt → JwtSettings → Bool → ℕ → Text → Exec HttpError (Session × List Bool) Text
trigger_products_sync jwt settings full now credentials =
    for_superadmin jwt settings (λ s. s.0.now) now credentials
      (λ (s, tasks). (ok (codes "scheduled"), (s, tasks ++ full ∷ [])))

unfoldable pub pushed :
    Result Exn (List WooPushItemResult) → Result HttpError (List WooPushItemResult)
pushed (ok results) = ok results
pushed (err e) = err (raised e)

module _ {W : Type 0} (woo : WooClient W) (str_of : Exn → Text) (settings : Settings) where
  -- the body of the route, for a superadmin
  unfoldable pub push_if_configured : List ℤ → Exec HttpError (State W) (List WooPushItemResult)
  unfolding pushed
  push_if_configured busy_codes s = elim settings.woo_site_url [
    | [] ↦ (err (http 409), s)
    | c ∷ url ↦
        let (r, t) =
          push_products_by_code woo str_of settings.woo_new_product_status busy_codes s in
        (pushed r, t)
  ]

  unfoldable pub push_to_woocommerce_route :
      Jwt → JwtSettings → List ℤ → ℕ → Text → Exec HttpError (State W) (List WooPushItemResult)
  push_to_woocommerce_route jwt jwt_settings busy_codes now credentials =
      for_superadmin jwt jwt_settings (λ s. s.session.now) now credentials
        (push_if_configured busy_codes)
