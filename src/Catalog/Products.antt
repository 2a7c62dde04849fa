-- ===== src/Catalog/Products.antt =====
-- app/domain/catalog/sync.py: `sync_products`. The detail calls of a batch run concurrently there;
-- here they run one after the other, in the order of the batch, and all before the batch's writes.
pub mod Local
pub mod Keeps
pub mod Atomic
use fembin.Base.{
  ℕ, zero, suc, ◌+◌, Text, codes, text_eq, Option, none, some, List, [], ◌∷◌, ◌++◌, Bool, true,
  false, not, leb, ◌||◌, if◌then◌else◌, length, take, drop,
}
use fembin.Base.Int.{ℤ, pos, negsuc, max_ℤ}
use fembin.Exec.{Exec, Result, ok, err, pure, raise, lift, gets, modify, ◌>>=◌, ◌>>◌}
use fembin.Errors.{Exn, busy_error, http_error, value_error, or_error}
use fembin.Decimal.{Decimal, decimal_zero}
use fembin.Table.{upsert_row}
use fembin.Db.{Db, Product, Session, State, on_net}
use fembin.Busy.Constants.{MasterType, item}
use fembin.Busy.BitColumns.{is_master_active}
use fembin.Busy.Client.{BusyClient, get_master_xml}
use fembin.Busy.Element.{XmlEntry, parse_element_xml}
use fembin.Busy.Pagination.{text_at, int_at, fetch_all_pages}
use fembin.Busy.Rowset.{Row}
use fembin.Catalog.Centers.{master_where}
use fembin.Catalog.Detail.{ItemDetail, uncategorised, map_item_fields}
use fembin.Catalog.Stamps.{
  SyncResult, get_last_stamp, get_last_full_at, set_last_stamp, set_last_full_at, upsert_category,
  on_now, commit_session,
}

abbrev pub product_columns : List Text
product_columns =
    codes "Code"
    ∷ codes "Name"
    ∷ codes "Stamp"
    ∷ codes "BlockedMaster"
    ∷ codes "DeactiveMaster"
    ∷ []

-- where to start, and whether that is a full run
unfoldable pub due : Option ℕ → ℕ → ℕ → Bool
due none now interval = true
due (some last) now interval = leb (last + interval) now

abbrev full_if : Bool → ℤ → ℤ × Bool
full_if d stamp = (if d then negsuc 0 else stamp, d)

unfoldable pub plan : Bool → Text → ℕ → ℕ → Db → ℤ × Bool
unfolding due
plan full strategy now interval db =
    let stamp = get_last_stamp (codes "products") db in
    full_if
      (if full || text_eq strategy (codes "full")
        then true
        else if text_eq strategy (codes "reconcile")
        then due (get_last_full_at (codes "products") db) now interval
        else false)
      stamp

-- a row that nothing of the store is known of yet
abbrev pub new_product : ℤ → ItemDetail → Bool → Product
new_product code detail active = record {
  busy_code = code;
  name = detail.name;
  price = detail.price;
  unit = detail.unit;
  item_group = detail.item_group;
  tracks_stock = detail.tracks_stock;
  is_active = active;
  woo_product_id = none;
  woo_synced_price = none;
  woo_synced_name = none;
  woo_hidden = false;
  barcode = none;
}

-- the item of a blocked row that is new
abbrev pub blocked : Text → ItemDetail
blocked name = record {
  name = name;
  price = decimal_zero;
  unit = [];
  item_group = uncategorised;
  tracks_stock = false;
}

abbrev pub as_blocked : Text → Product → Product
as_blocked name p = record p { name = name; is_active = false }

unfoldable pub put_blocked : ℤ → Text → Db → Db
put_blocked code name db = record db {
  products =
      upsert_row (λ p. p.busy_code) code (new_product code (blocked name) false) (as_blocked name)
        db.products;
}

abbrev pub with_detail : ItemDetail → Product → Product
with_detail detail p = record p {
  name = detail.name;
  price = detail.price;
  unit = detail.unit;
  item_group = detail.item_group;
  tracks_stock = detail.tracks_stock;
  is_active = true;
}

unfoldable pub put_active : ℤ → ItemDetail → Db → Db
put_active code detail db = record db {
  products =
      upsert_row (λ p. p.busy_code) code (new_product code detail true) (with_detail detail)
        db.products;
}

pub record Scan : Type 0 where
  pub max_stamp : ℤ
  pub stored : ℕ
  pub active : List ℤ

-- the first loop: blocked rows are written, the codes of the others are kept
unfoldable pub scan_rows : Scan → List Row → Exec Exn Db Scan
scan_rows scan [] = pure scan
scan_rows scan (row ∷ rows) = do
  code ← lift (int_at (codes "Code") row)
  stamp ← lift (int_at (codes "Stamp") row)
  elim (is_master_active row) [
    | true ↦
        scan_rows
          (record scan {
            max_stamp = max_ℤ scan.max_stamp stamp;
            active = scan.active ++ code ∷ [];
          })
          rows
    | false ↦ do
      name ← lift (text_at (codes "Name") row)
      modify (put_blocked code name)
      scan_rows (record scan { max_stamp = max_ℤ scan.max_stamp stamp; stored = scan.stored + 1 })
          rows
  ]

-- `except (BusyError, httpx.HTTPError, ValueError)`
unfoldable pub or_missed : {A : Type 0} → Result Exn A → Result Exn (Option A)
or_missed (ok a) = ok (some a)
or_missed (err (busy_error op response)) = ok none
or_missed (err http_error) = ok none
or_missed (err value_error) = ok none
or_missed (err e) = err e

pub record Tally : Type 0 where
  pub stored : ℕ
  pub failed : ℕ

-- the writes of one batch
unfoldable pub store_details : Tally → List (ℤ × Option ItemDetail) → Exec Exn Db Tally
store_details tally [] = pure tally
store_details tally ((code, none) ∷ fetched) =
    store_details (record tally { failed = tally.failed + 1 }) fetched
store_details tally ((code, some detail) ∷ fetched) = do
  modify (upsert_category detail.item_group)
  modify (put_active code detail)
  store_details (record tally { stored = tally.stored + 1 }) fetched

module _ {W : Type 0} (repr : XmlEntry → Text) (client : BusyClient W) where
  -- `_fetch`
  unfoldable pub fetch_detail : ℤ → Exec Exn W (Option ItemDetail)
  unfolding or_missed
  fetch_detail code w =
      let (r, w') =
        (do
          detail_xml ← get_master_xml client code
          parsed ← lift (parse_element_xml detail_xml)
          lift (map_item_fields repr parsed))
          w in
      (or_missed r, w')

  unfoldable pub fetch_batch : List ℤ → Exec Exn W (List (ℤ × Option ItemDetail))
  fetch_batch [] = pure []
  fetch_batch (code ∷ more) = do
    detail ← fetch_detail code
    rest ← fetch_batch more
    pure ((code, detail) ∷ rest)

  -- the batches, `active_rows[start : start + concurrency]` for each start; with as much fuel as
  -- there are codes none is left over
  unfoldable pub store_batches : ℕ → ℕ → Tally → List ℤ → Exec Exn (State W) Tally
  store_batches fuel concurrency tally [] = pure tally
  store_batches zero concurrency tally (code ∷ more) = pure tally
  store_batches (suc fuel) concurrency tally (code ∷ more) = do
    fetched ← on_net (fetch_batch (take concurrency (code ∷ more)))
    tally' ← on_now (store_details tally fetched)
    store_batches fuel concurrency tally' (drop concurrency (code ∷ more))

  -- `range` with step 0 is a ValueError
  unfoldable pub batched : ℕ → Tally → List ℤ → Exec Exn (State W) Tally
  batched zero tally codes = raise value_error
  batched (suc c) tally codes = store_batches (length codes) (suc c) tally codes

  -- the checkpoints and the commit
  unfoldable pub finish : Bool → ℕ → ℕ → Scan → Tally → Exec Exn (State W) SyncResult
  finish is_full_run now changed scan tally = do
    on_now (modify (set_last_stamp (codes "products") scan.max_stamp))
    on_now (modify (λ db. if is_full_run then set_last_full_at (codes "products") now db else db))
    commit_session
    pure (record {
      entity = codes "products";
      changed = changed;
      incremental = not is_full_run;
      stored = tally.stored;
      failed = tally.failed;
    })

  unfoldable pub store_active : Bool → ℕ → ℕ → ℕ → Scan → Exec Exn (State W) SyncResult
  store_active is_full_run now concurrency changed scan = do
    tally ← batched concurrency (record { stored = scan.stored; failed = 0 }) scan.active
    finish is_full_run now changed scan tally

  -- what is written once the pages are there
  unfoldable pub store_products : ℤ → Bool → ℕ → ℕ → List Row → Exec Exn (State W) SyncResult
  store_products since is_full_run now concurrency rows = do
    on_now (modify (upsert_category uncategorised))
    scan ← on_now (scan_rows (record { max_stamp = since; stored = 0; active = [] }) rows)
    store_active is_full_run now concurrency (length rows) scan

  unfoldable pub store_fetched :
      ℤ → Bool → ℕ → ℕ → Option (List Row) → Exec Exn (State W) (Option SyncResult)
  store_fetched since is_full_run now concurrency none = pure none
  store_fetched since is_full_run now concurrency (some rows) = do
    result ← store_products since is_full_run now concurrency rows
    pure (some result)

  unfoldable pub sync_products :
      (fuel : ℕ) (full : Bool) (strategy : Text) (now interval page_size concurrency : ℕ)
      → Exec Exn (State W) (Option SyncResult)
  sync_products fuel full strategy now interval page_size concurrency = do
    plan' ← gets (λ s. plan full strategy now interval s.session.now)
    fetched ←
        on_net (fetch_all_pages client product_columns (master_where item) page_size fuel plan'.0)
    store_fetched plan'.0 plan'.1 now concurrency fetched
