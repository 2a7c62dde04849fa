-- ===== src/Catalog/Scheduler.antt =====
-- app/domain/catalog/scheduler.py: a run of the whole sync, each step in a session of its own, and
-- the loop around it. `none` is a fetch that ran out of fuel; the clock is read by three steps.
pub mod Steps
use fembin.Base.{ℕ, Text, Option, none, some, List, [], ◌∷◌, Bool, false}
use fembin.Exec.{Exec, Result, ok, err, pure, ◌>>=◌, ◌>>◌}
use fembin.Errors.{Exn}
use fembin.Db.{State, rollback}
use fembin.Busy.Client.{BusyClient}
use fembin.Busy.Element.{XmlEntry}
use fembin.Catalog.Stamps.{SyncResult}
use fembin.Catalog.Centers.{sync_material_centers, sync_salesmen}
use fembin.Catalog.Products.{sync_products}
use fembin.Catalog.VchSeries.{sync_vch_series}
use fembin.Woo.Client.{WooClient}
use fembin.Woo.Push.{WooPushResult, push_products_to_woocommerce}

-- what the scheduler reads of app/config.py
pub record Settings : Type 0 where
  pub catalog_sync_products_strategy : Text
  pub catalog_sync_products_reconcile_interval_seconds : ℕ
  pub catalog_sync_products_detail_concurrency : ℕ
  pub woo_site_url : Text
  pub woo_new_product_status : Text

pub record CatalogSyncRunResult : Type 0 where
  pub busy : List SyncResult
  pub woo : Option WooPushResult

-- sync.py's DEFAULT_PAGE_SIZE
abbrev default_page_size : ℕ
default_page_size = 500

-- what the clock says to the steps that read it
pub record Clock : Type 0 where
  pub series_at : ℕ
  pub products_at : ℕ
  pub woo_at : ℕ

module _ {W A : Type 0} where
  -- A step in a session of its own: the session begins with what is committed, and what it has not
  -- committed is gone when it is closed, after an exception too.
  unfoldable pub in_session : Exec Exn (State W) A → Exec Exn (State W) A
  in_session step s =
      let (r, t) = step (record s { session = rollback s.session }) in
      (r, record t { session = rollback t.session })

  -- `except Exception: logger.exception(...)` with no raise
  unfoldable pub or_logged : Exec Exn (State W) A → Exec Exn (State W) Unit
  or_logged step s = let (r, t) = step s in (ok tt, t)

module _ {W A B : Type 0} where
  unfoldable pub if_some :
      (A → Exec Exn (State W) (Option B)) → Option A → Exec Exn (State W) (Option B)
  if_some f none = pure none
  if_some f (some a) = f a

  abbrev pub then_some :
      Exec Exn (State W) (Option A)
      → (A → Exec Exn (State W) (Option B))
      → Exec Exn (State W) (Option B)
  then_some m f = m >>= if_some f

module _ {W : Type 0} (repr : XmlEntry → Text) (client : BusyClient W) (woo : WooClient W)
    (fuel : ℕ) (settings : Settings) where
  unfoldable pub centers_step : Bool → Exec Exn (State W) (Option SyncResult)
  centers_step full = in_session (sync_material_centers client fuel full default_page_size)

  unfoldable pub salesmen_step : Bool → Exec Exn (State W) (Option SyncResult)
  salesmen_step full = in_session (sync_salesmen client fuel full default_page_size)

  unfoldable pub series_step : ℕ → Exec Exn (State W) Unit
  series_step now = or_logged (in_session (sync_vch_series client now))

  unfoldable pub products_step : Bool → ℕ → Exec Exn (State W) (Option SyncResult)
  products_step full now = in_session (
      sync_products repr client fuel full settings.catalog_sync_products_strategy now
        settings.catalog_sync_products_reconcile_interval_seconds default_page_size
        settings.catalog_sync_products_detail_concurrency)

  -- skipped where WooCommerce is not configured
  unfoldable pub woo_step : ℕ → Exec Exn (State W) (Option WooPushResult)
  woo_step now = elim settings.woo_site_url [
    | [] ↦ pure none
    | c ∷ url ↦ do
      result ← in_session (push_products_to_woocommerce woo now settings.woo_new_product_status)
      pure (some result)
  ]

  abbrev pub run_result :
      SyncResult → SyncResult → SyncResult → Option WooPushResult → CatalogSyncRunResult
  run_result centers salesmen products pushed = record {
    busy = centers ∷ salesmen ∷ products ∷ [];
    woo = pushed;
  }

  -- what follows the two first steps
  unfoldable pub push_run :
      ℕ → SyncResult → SyncResult → SyncResult → Exec Exn (State W) (Option CatalogSyncRunResult)
  push_run now centers salesmen products = do
    pushed ← woo_step now
    pure (some (run_result centers salesmen products pushed))

  unfoldable pub products_run :
      Bool → Clock → SyncResult → SyncResult → Exec Exn (State W) (Option CatalogSyncRunResult)
  products_run full clock centers salesmen = do
    series_step clock.series_at
    then_some (products_step full clock.products_at) (push_run clock.woo_at centers salesmen)

  unfoldable pub run_catalog_sync : Bool → Clock → Exec Exn (State W) (Option CatalogSyncRunResult)
  run_catalog_sync full clock =
      then_some (centers_step full)
        (λ centers. then_some (salesmen_step full) (products_run full clock centers))

  -- One round for each wait; the stop event is set during the last. An exception of a run is
  -- logged, and the next run begins with the state that it left.
  unfoldable pub catalog_sync_loop : List (Clock × (State W → State W)) → State W → State W
  catalog_sync_loop [] s = s
  catalog_sync_loop ((clock, others) ∷ rounds) s =
      catalog_sync_loop rounds (others (run_catalog_sync false clock s).1)
