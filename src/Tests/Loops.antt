-- ===== src/Tests/Loops.antt =====
-- The scheduler with a server that is gone at the fourth request, and the outbox's loop with a
-- first turn that does not connect.
use fembin.Base.{
  ℕ, suc, ◌≡◌, refl, codes, text_eq, some, [], ◌∷◌, false, true, ltb, if◌then◌else◌, arith,
}
use fembin.Base.Dict.{lookup}
use fembin.Exec.{ok, err}
use fembin.Errors.{http_error}
use fembin.Db.{State}
use fembin.Table.{upsert_row}
use fembin.Busy.Client.{BusyClient, answer, call, run_query}
use fembin.Busy.Pagination.{fetch_all_pages, fetch_pages, int_at, read_page, row_cursor, text_at}
use fembin.Busy.Rowset.{parse_rowset_xml, get_or_empty}
use fembin.Busy.BitColumns.{is_master_active}
use fembin.Strings.{parse_int, print_ℕ, print_ℤ, strip}
use fembin.Catalog.Centers.{
  sync_material_centers, sync_salesmen, store_centers, store_salesmen, store_fetched_centers,
  store_fetched_salesmen, put_center, put_salesman,
}
use fembin.Catalog.Products.{sync_products}
use fembin.Catalog.VchSeries.{
  sync_vch_series, unresolved_codes, sync_centers, resolve_vch_series, winner, store_series,
  winning_series_code, count_rows, count_code, series_code,
}
use fembin.Catalog.Stamps.{get_last_stamp, set_last_stamp}
use fembin.Catalog.Scheduler.{
  Settings, Clock, run_catalog_sync, centers_step, salesmen_step, series_step, products_step,
  products_run, in_session, or_logged, if_some,
}
use fembin.Catalog.Scheduler.Steps.{FailedAt, run_catalog_sync_keeps_steps}
use fembin.Outbox.Models.{OutboxJob, Outbox, OutboxStatus, is_queued, get_job}
use fembin.Outbox.Loop.{Turn, outbox_worker_loop}
use fembin.Outbox.Loop.Drains.{IsOrderly, outbox_worker_loop_ends}
use fembin.Outbox.Loop.Advance.{Advances-refl}
use fembin.Outbox.Rows.{unlocked}
use fembin.Tests.Data.{db, masters, repr, two_jobs, job, no_name, counting_handlers}
use fembin.Tests.Store.{store}

abbrev failing : BusyClient ℕ
failing = record {
  username = codes "u";
  password = codes "p";
  http_get = λ headers n.
      (if ltb n 3 then ok (masters (lookup (codes "SC") headers)) else err http_error, suc n);
}

abbrev settings : Settings
settings = record {
  catalog_sync_products_strategy = codes "full";
  catalog_sync_products_reconcile_interval_seconds = 60;
  catalog_sync_products_detail_concurrency = 8;
  woo_site_url = [];
  woo_new_product_status = codes "private";
}

abbrev clock : Clock
clock = record { series_at = 100; products_at = 101; woo_at = 102 }

abbrev begun : State ℕ
begun = record { session = record { saved = db; now = db }; net = 0 }

fourth_request_fails :
    let r = run_catalog_sync repr failing store 3 settings false clock begun in
    (r ≡ (err http_error, r.1)) × (r.1.net ≡ 4)
unfolding run_catalog_sync centers_step salesmen_step series_step products_step products_run
    in_session or_logged if_some sync_material_centers sync_salesmen store_centers store_salesmen
    store_fetched_centers store_fetched_salesmen sync_products sync_vch_series unresolved_codes
    sync_centers resolve_vch_series winner store_series winning_series_code count_rows count_code
    series_code text_eq codes fetch_all_pages fetch_pages read_page run_query call answer lookup
    print_ℕ print_ℤ parse_rowset_xml row_cursor parse_int is_master_active int_at text_at strip
    get_or_empty get_last_stamp set_last_stamp put_center put_salesman upsert_row
fourth_request_fails = (refl, refl)

run_catalog_sync_keeps_steps_example :
    FailedAt repr failing store 3 settings false clock begun http_error
      (run_catalog_sync repr failing store 3 settings false clock begun).1
run_catalog_sync_keeps_steps_example =
    run_catalog_sync_keeps_steps repr failing store 3 settings false clock begun
      (run_catalog_sync repr failing store 3 settings false clock begun).1 http_error
      fourth_request_fails.0

-- a turn that does not connect, and one that does
abbrev down : Turn
down = record { connects = false; locked = unlocked; others = λ t. t }

abbrev up : Turn
up = record { connects = true; locked = unlocked; others = λ t. t }

down-IsOrderly : IsOrderly down
down-IsOrderly = record { sorted = λ t h. h; advances = λ t. Advances-refl t }

up-IsOrderly : IsOrderly up
up-IsOrderly = record { sorted = λ t h. h; advances = λ t. Advances-refl t }

five_there : get_job 5 two_jobs.jobs ≡ some (job 5 (codes "b") OutboxStatus.queued)
unfolding get_job
five_there = refl

outbox_worker_loop_ends_example :
    (t' : Outbox) × (s' : ℕ) × (j' : OutboxJob) × (outbox_worker_loop no_name no_name
        counting_handlers
        (down ∷ up ∷ [])
        (two_jobs, 0)
      ≡ some (t', s'))
    × (get_job 5 t'.jobs ≡ some j')
    × (is_queued j'.status ≡ false)
outbox_worker_loop_ends_example =
    outbox_worker_loop_ends no_name no_name counting_handlers (down ∷ []) up [] two_jobs 0 5
      (job 5 (codes "b") OutboxStatus.queued) (ground arith) (down-IsOrderly, (up-IsOrderly, tt))
      refl refl five_there
