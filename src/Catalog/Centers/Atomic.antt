-- ===== src/Catalog/Centers/Atomic.antt =====
-- The syncs of app/domain/catalog/sync.py for the material centers and the salesmen, each as one
-- transaction.
use fembin.Base.{ℕ, refl, codes, Option, none, some, Bool, if◌then◌else◌, List}
use fembin.Base.Int.{ℤ, negsuc}
use fembin.Exec.{gets}
use fembin.Db.{State, on_net}
use fembin.Busy.Client.{BusyClient}
use fembin.Busy.Constants.{material_center, broker}
use fembin.Busy.Pagination.{fetch_all_pages}
use fembin.Busy.Rowset.{Row}
use fembin.Catalog.Stamps.{get_last_stamp, on_now}
use fembin.Catalog.Centers.{
  master_columns, master_where, store_centers, store_salesmen, store_fetched_centers,
  store_fetched_salesmen, sync_material_centers, sync_salesmen,
}
use fembin.Catalog.Transaction.{Outcome, >>=-Outcome}
use fembin.Catalog.Products.Atomic.{is_some}

module _ {W : Type 0} where
  store_fetched_centers-Outcome :
      (since : ℤ) (full : Bool) (fetched : Option (List Row)) (s : State W)
      → Outcome is_some s (store_fetched_centers since full fetched s)
  unfolding store_fetched_centers
  store_fetched_centers-Outcome since full none s = refl
  store_fetched_centers-Outcome since full (some rows) s =
      >>=-Outcome is_some (on_now (store_centers since rows)) _ (λ t. refl) (λ max_stamp u. refl) s

module _ {W : Type 0} (client : BusyClient W) (fuel : ℕ) (full : Bool) (page_size : ℕ) where
  pub sync_material_centers_atomic :
      (s : State W) → Outcome is_some s (sync_material_centers client fuel full page_size s)
  unfolding sync_material_centers
  sync_material_centers_atomic =
      >>=-Outcome is_some
        (gets
          (λ s. if full then negsuc 0 else get_last_stamp (codes "material_centers") s.session.now))
        _ (λ t. refl)
        (λ since.
          >>=-Outcome is_some
            (on_net (
              fetch_all_pages client master_columns (master_where material_center) page_size fuel
                since))
            _ (λ t. refl) (store_fetched_centers-Outcome since full))

module _ {W : Type 0} where
  store_fetched_salesmen-Outcome :
      (since : ℤ) (full : Bool) (fetched : Option (List Row)) (s : State W)
      → Outcome is_some s (store_fetched_salesmen since full fetched s)
  unfolding store_fetched_salesmen
  store_fetched_salesmen-Outcome since full none s = refl
  store_fetched_salesmen-Outcome since full (some rows) s =
      >>=-Outcome is_some (on_now (store_salesmen since rows)) _ (λ t. refl) (λ max_stamp u. refl) s

module _ {W : Type 0} (client : BusyClient W) (fuel : ℕ) (full : Bool) (page_size : ℕ) where
  pub sync_salesmen_atomic :
      (s : State W) → Outcome is_some s (sync_salesmen client fuel full page_size s)
  unfolding sync_salesmen
  sync_salesmen_atomic =
      >>=-Outcome is_some
        (gets (λ s. if full then negsuc 0 else get_last_stamp (codes "salesmen") s.session.now)) _
        (λ t. refl)
        (λ since.
          >>=-Outcome is_some
            (on_net
              (fetch_all_pages client master_columns (master_where broker) page_size fuel since))
            _ (λ t. refl) (store_fetched_salesmen-Outcome since full))
