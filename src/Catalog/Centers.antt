-- ===== src/Catalog/Centers.antt =====
-- app/domain/catalog/sync.py: `sync_material_centers` and `sync_salesmen`.
pub mod Atomic
use fembin.Base.{
  ℕ, Text, codes, Option, none, some, List, [], ◌∷◌, ◌++◌, Bool, not, if◌then◌else◌, length,
}
use fembin.Base.Int.{ℤ, negsuc, max_ℤ}
use fembin.Base.Dict.{lookup}
use fembin.Exec.{Exec, pure, lift, gets, modify, ◌>>=◌, ◌>>◌}
use fembin.Errors.{Exn}
use fembin.Strings.{print_ℕ}
use fembin.Table.{upsert_row}
use fembin.Db.{Db, State, on_net}
use fembin.Busy.Constants.{MasterType, master_type, material_center, broker}
use fembin.Busy.BitColumns.{is_master_active}
use fembin.Busy.Client.{BusyClient}
use fembin.Busy.Pagination.{text_at, int_at, fetch_all_pages}
use fembin.Busy.Rowset.{Row}
use fembin.Catalog.Stamps.{
  SyncResult, get_last_stamp, set_last_stamp, or_none, on_now, commit_session,
}

abbrev pub master_columns : List Text
master_columns =
    codes "Code"
    ∷ codes "Name"
    ∷ codes "Alias"
    ∷ codes "ParentGrp"
    ∷ codes "Stamp"
    ∷ codes "BlockedMaster"
    ∷ codes "DeactiveMaster"
    ∷ []

abbrev pub master_where : MasterType → Text
master_where t = codes "Master1 WHERE MasterType = " ++ print_ℕ (master_type t)

unfoldable pub put_center : ℤ → Text → Option Text → Option Text → Bool → Db → Db
put_center code name alias parent_group active db = record db {
  material_centers =
      upsert_row (λ r. r.busy_code) code
        (record {
          busy_code = code;
          name = name;
          alias = alias;
          parent_group = parent_group;
          is_active = active;
          vch_series_name = none;
          vch_no_prefix = none;
          vch_series_resolved_at = none;
        })
        (λ r. record r {
          name = name;
          alias = alias;
          parent_group = parent_group;
          is_active = active;
        })
        db.material_centers;
}

-- the loop over the rows, which returns the largest stamp
unfoldable pub store_centers : ℤ → List Row → Exec Exn Db ℤ
store_centers max_stamp [] = pure max_stamp
store_centers max_stamp (row ∷ rows) = do
  code ← lift (int_at (codes "Code") row)
  name ← lift (text_at (codes "Name") row)
  modify (
      put_center code name (or_none (lookup (codes "Alias") row))
        (or_none (lookup (codes "ParentGrp") row)) (is_master_active row))
  stamp ← lift (int_at (codes "Stamp") row)
  store_centers (max_ℤ max_stamp stamp) rows

module _ {W : Type 0} where
  -- what is written once the pages are there
  unfoldable pub store_fetched_centers :
      ℤ → Bool → Option (List Row) → Exec Exn (State W) (Option SyncResult)
  store_fetched_centers since full none = pure none
  store_fetched_centers since full (some rows) = do
    max_stamp ← on_now (store_centers since rows)
    on_now (modify (set_last_stamp (codes "material_centers") max_stamp))
    commit_session
    pure (
        some (record {
          entity = codes "material_centers";
          changed = length rows;
          incremental = not full;
          stored = length rows;
          failed = 0;
        }))

module _ {W : Type 0} (client : BusyClient W) where
  unfoldable pub sync_material_centers : ℕ → Bool → ℕ → Exec Exn (State W) (Option SyncResult)
  sync_material_centers fuel full page_size = do
    since ←
        gets
          (λ s. if full then negsuc 0 else get_last_stamp (codes "material_centers") s.session.now)
    fetched ←
        on_net (
          fetch_all_pages client master_columns (master_where material_center) page_size fuel since)
    store_fetched_centers since full fetched

unfoldable pub put_salesman : ℤ → Text → Option Text → Option Text → Bool → Db → Db
put_salesman code name alias parent_group active db = record db {
  salesmen =
      upsert_row (λ r. r.busy_code) code
        (record {
          busy_code = code;
          name = name;
          alias = alias;
          parent_group = parent_group;
          is_active = active;
        })
        (λ r. record r {
          name = name;
          alias = alias;
          parent_group = parent_group;
          is_active = active;
        })
        db.salesmen;
}

-- the loop over the rows, which returns the largest stamp
unfoldable pub store_salesmen : ℤ → List Row → Exec Exn Db ℤ
store_salesmen max_stamp [] = pure max_stamp
store_salesmen max_stamp (row ∷ rows) = do
  code ← lift (int_at (codes "Code") row)
  name ← lift (text_at (codes "Name") row)
  modify (
      put_salesman code name (or_none (lookup (codes "Alias") row))
        (or_none (lookup (codes "ParentGrp") row)) (is_master_active row))
  stamp ← lift (int_at (codes "Stamp") row)
  store_salesmen (max_ℤ max_stamp stamp) rows

module _ {W : Type 0} where
  -- what is written once the pages are there
  unfoldable pub store_fetched_salesmen :
      ℤ → Bool → Option (List Row) → Exec Exn (State W) (Option SyncResult)
  store_fetched_salesmen since full none = pure none
  store_fetched_salesmen since full (some rows) = do
    max_stamp ← on_now (store_salesmen since rows)
    on_now (modify (set_last_stamp (codes "salesmen") max_stamp))
    commit_session
    pure (
        some (record {
          entity = codes "salesmen";
          changed = length rows;
          incremental = not full;
          stored = length rows;
          failed = 0;
        }))

module _ {W : Type 0} (client : BusyClient W) where
  unfoldable pub sync_salesmen : ℕ → Bool → ℕ → Exec Exn (State W) (Option SyncResult)
  sync_salesmen fuel full page_size = do
    since ← gets (λ s. if full then negsuc 0 else get_last_stamp (codes "salesmen") s.session.now)
    fetched ←
        on_net (fetch_all_pages client master_columns (master_where broker) page_size fuel since)
    store_fetched_salesmen since full fetched
