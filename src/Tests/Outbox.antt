-- ===== src/Tests/Outbox.antt =====
-- The outbox at a table with a finished and a queued job.
use fembin.Base.{
  ℕ, ◌≤◌, ◌+◌, ◌≡◌, refl, codes, text_eq, some, [], ◌∷◌, true, false, arith, if◌then◌else◌,
}
use fembin.Exec.{ok}
use fembin.Errors.{integrity_error}
use fembin.Json.{null}
use fembin.Outbox.Models.{OutboxJob, Outbox, OutboxStatus, is_queued, get_job, put_job}
use fembin.Outbox.Queue.{find_key, enqueue, insert_job}
use fembin.Outbox.Worker.{next_queued, process_next_job, drain_outbox, claim, run_job, settle}
use fembin.Base.Dict.{lookup}
use fembin.Outbox.Rows.{IsSorted, unlocked, count_queued}
use fembin.Outbox.Keys.{IsTable, enqueue_returns_row, enqueue-IsTable}
use fembin.Outbox.Process.{EndsOldest, process_idle, process_next_job-EndsOldest, drain_total}
use fembin.Outbox.Steps.{Config, Reach, Step, IsFair, starts, started_once}
use fembin.Tests.Data.{two_jobs, no_name, counting_handlers, job}

two_jobs-IsTable : IsTable two_jobs
unfolding find_key text_eq codes
two_jobs-IsTable = record {
  sorted = ground arith;
  below = ground arith;
  unique = (refl, (refl, tt));
}

enqueue_returns_row_example :
    let (r, t') =
      enqueue integrity_error false (λ u. u) (codes "add_voucher") null (codes "c") two_jobs in
    (j : OutboxJob) × (r ≡ ok j) × (find_key (codes "c") t'.jobs ≡ some j)
enqueue_returns_row_example =
    enqueue_returns_row (codes "add_voucher") null (codes "c") integrity_error (λ u. u) two_jobs

enqueue-IsTable_example :
    IsTable
      (enqueue integrity_error false (λ u. u) (codes "add_voucher") null (codes "c") two_jobs).1
enqueue-IsTable_example =
    enqueue-IsTable (codes "add_voucher") null (codes "c") integrity_error false (λ u. u) two_jobs
      (λ u v. v) two_jobs-IsTable

drain_total_example :
    (t' : Outbox) × (s' : ℕ) × (drain_outbox no_name no_name 2 unlocked counting_handlers 0
        (two_jobs, 0)
      ≡ some (0 + count_queued two_jobs.jobs, (t', s')))
    × (count_queued t'.jobs ≡ 0)
    × IsSorted 0 t'.jobs
drain_total_example =
    drain_total no_name no_name counting_handlers 2 0 two_jobs 0 two_jobs-IsTable.sorted
      (omega arith)

process_idle_example :
    let r = process_next_job no_name no_name (λ i. true) counting_handlers (two_jobs, 0) in
    (r.1 ≡ (two_jobs, 0))
    × ((i : ℕ) (k : OutboxJob)
        → get_job i two_jobs.jobs ≡ some k
        → k.status ≡ OutboxStatus.queued
        → true ≡ true)
unfolding process_next_job claim next_queued
process_idle_example = process_idle no_name no_name (λ i. true) counting_handlers two_jobs 0 refl

abbrev done_five : OutboxJob
done_five = record (job 5 (codes "b") OutboxStatus.queued) {
  status = OutboxStatus.done;
  attempts = 1;
  result = some null;
}

five_runs :
    (process_next_job no_name no_name unlocked counting_handlers (two_jobs, 0)).0 ≡ some done_five
unfolding process_next_job claim next_queued run_job settle lookup text_eq codes put_job
five_runs = refl

process_next_job-EndsOldest_example :
    EndsOldest unlocked two_jobs
      (process_next_job no_name no_name unlocked counting_handlers (two_jobs, 0)).1.0
      done_five
process_next_job-EndsOldest_example =
    process_next_job-EndsOldest no_name no_name unlocked counting_handlers two_jobs 0 done_five
      two_jobs-IsTable.sorted five_runs

-- a queued job, and nothing started
abbrev pub fresh : Config
fresh = record { table = record { jobs = []; next_id = 1 }; started = [] }

pub fresh-IsFair : IsFair fresh
unfolding get_job
fresh-IsFair = record {
  valid = record { sorted = tt; below = tt; unique = tt };
  counted = λ i. refl;
}

abbrev pub began : Config
began = record {
  table = record {
    jobs = record (job 1 (codes "c") OutboxStatus.running) { attempts = 1 } ∷ [];
    next_id = 2;
  };
  started = 1 ∷ [];
}

pub runs : Reach no_name no_name integrity_error fresh began
unfolding enqueue insert_job claim next_queued put_job find_key
runs = Reach.next (Reach.next Reach.here (Step.add false (codes "add_voucher") null (codes "c"))) (
    Step.begin unlocked (record (job 1 (codes "c") OutboxStatus.running) { attempts = 1 })
      began.table refl)

started_once_example :
    (starts 1 began.started ≤ 1)
    × ((j : OutboxJob)
        → get_job 1 began.table.jobs ≡ some j
        → starts 1 began.started ≡ (if is_queued j.status then 0 else 1))
started_once_example = started_once no_name no_name integrity_error 1 runs fresh-IsFair
