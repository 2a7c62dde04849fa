-- ===== src/Scripts/Once.antt =====
-- scripts/drain_outbox_once.py and run_catalog_sync_once.py: one drain, and one run of the sync with
-- what it logs.
use fembin.Base.{ℕ, ◌+◌, ◌≡◌, Text, Option, none, some, List, map, Bool, arith}
use fembin.Base.Int.{ℤ}
use fembin.Exec.{Exec, pure, ◌>>=◌}
use fembin.Errors.{Exn}
use fembin.Db.{State}
use fembin.Busy.Client.{BusyClient}
use fembin.Busy.Element.{XmlEntry}
use fembin.Outbox.Models.{Outbox}
use fembin.Outbox.Worker.{drain_outbox}
use fembin.Outbox.Rows.{IsSorted, count_queued, unlocked}
use fembin.Outbox.Process.{drain_total}
use fembin.Orders.Handler.{handlers}
use fembin.Catalog.Stamps.{SyncResult}
use fembin.Catalog.Scheduler.{CatalogSyncRunResult, Settings, Clock, run_catalog_sync}
use fembin.Woo.Client.{WooClient}
use fembin.Woo.Push.{WooPushResult}

-- the script loads the module that registers the handler of the quotations; the drain has more fuel
-- than jobs are queued
unfoldable pub drain_outbox_once :
    {W : Type 0}
    → (type_name str_of : Exn → Text) → (XmlEntry → Text)
    → (ℤ → Bool)
    → BusyClient W
    → (ℕ → Bool)
    → Outbox × State W
    → Option (ℕ × (Outbox × State W))
drain_outbox_once type_name str_of repr accepts client locked (t, s) =
    drain_outbox type_name str_of (count_queued t.jobs + 1) locked (handlers repr accepts client) 0
      (t, s)

pub record SyncLine : Type 0 where
  pub entity : Text
  pub changed : ℕ
  pub stored : ℕ
  pub failed : ℕ

pub record WooLine : Type 0 where
  pub created : ℕ
  pub updated : ℕ
  pub skipped : ℕ
  pub failed : ℕ

abbrev pub sync_line : SyncResult → SyncLine
sync_line entry = record {
  entity = entry.entity;
  changed = entry.changed;
  stored = entry.stored;
  failed = entry.failed;
}

abbrev pub woo_line : Option WooPushResult → Option WooLine
woo_line none = none
woo_line (some woo) = some (record {
  created = woo.created;
  updated = woo.updated;
  skipped = woo.skipped;
  failed = woo.failed;
})

abbrev pub lines_of : Option CatalogSyncRunResult → Option (List SyncLine × Option WooLine)
lines_of none = none
lines_of (some result) = some (map sync_line result.busy, woo_line result.woo)

unfoldable pub run_catalog_sync_once :
    {W : Type 0}
    → (XmlEntry → Text)
    → BusyClient W
    → WooClient W
    → ℕ
    → Settings
    → Bool
    → Clock
    → Exec Exn (State W) (Option (List SyncLine × Option WooLine))
run_catalog_sync_once repr client woo fuel settings full clock = do
  result ← run_catalog_sync repr client woo fuel settings full clock
  pure (lines_of result)

-- with the table in the order of its ids and no row locked, the script processes all that is queued
drain_outbox_once_lem :
    {W : Type 0} (type_name str_of : Exn → Text) (repr : XmlEntry → Text) (accepts : ℤ → Bool)
    (client : BusyClient W) (t : Outbox) (s : State W)
    → IsSorted 0 t.jobs
    → (t' : Outbox) × (s' : State W) × (drain_outbox_once type_name str_of repr accepts client
          unlocked
          (t, s)
        ≡ some (count_queued t.jobs, (t', s')))
      × (count_queued t'.jobs ≡ 0)
      × IsSorted 0 t'.jobs
unfolding drain_outbox_once
drain_outbox_once_lem type_name str_of repr accepts client t s sorted =
    let (t', s', returned, none_left, sorted') =
      drain_total type_name str_of (handlers repr accepts client) (count_queued t.jobs + 1) 0 t s
        sorted (omega arith) in
    (t', s', ground (arith, returned), none_left, sorted')
