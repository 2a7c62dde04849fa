-- ===== src/Scripts/Reports/Counted.antt =====
-- scripts/list_quotations.py: the counts by status.
use fembin.Base.{ℕ, ◌+◌, ◌≡◌, refl, ◌∙◌, none, List, [], ◌∷◌, arith, if◌then◌else◌, length}
use fembin.Outbox.Models.{OutboxJob, Outbox, OutboxStatus, queued, running, done, failed}
use fembin.Orders.Queue.{list_quotations}
use fembin.Scripts.Reports.{
  status_eq, ByStatus, get_count, set_count, count_statuses, report_quotations,
}

-- how many of the jobs have a status
abbrev pub with_status : OutboxStatus → List OutboxJob → ℕ
with_status status [] = 0
with_status status (job ∷ jobs) =
    (if status_eq job.status status then 1 else 0) + with_status status jobs

get_count-set_count :
    (status other : OutboxStatus) (n : ℕ) (counts : ByStatus)
    → get_count other (set_count status n counts)
      ≡ (if status_eq status other then n else get_count other counts)
unfolding get_count set_count
get_count-set_count status other n [] = refl
get_count-set_count status other n ((s, m) ∷ rest) =
    ground (arith, get_count-set_count status other n rest)

count_statuses_lem :
    (status : OutboxStatus) (counts : ByStatus) (jobs : List OutboxJob)
    → get_count status (count_statuses counts jobs)
      ≡ get_count status counts + with_status status jobs
unfolding count_statuses
count_statuses_lem status counts [] = omega arith
count_statuses_lem status counts (job ∷ jobs) =
    let n = get_count job.status counts + 1 in
    count_statuses_lem status (set_count job.status n counts) jobs
    ∙ ground (arith, get_count-set_count job.status status n counts)

total_lem :
    (jobs : List OutboxJob)
    → with_status queued jobs
        + with_status running jobs
        + with_status done jobs
        + with_status failed jobs
      ≡ length jobs
total_lem [] = omega arith
total_lem (job ∷ jobs) = ground (arith, total_lem jobs)

-- The listing of the quotations tells for each status how many of them have it, and these numbers
-- add up to its total.
pub report_quotations_counts :
    (t : Outbox)
    → let r = report_quotations t in
      ((status : OutboxStatus)
        → get_count status r.by_status ≡ with_status status (list_quotations none t))
      × (get_count queued r.by_status
            + get_count running r.by_status
            + get_count done r.by_status
            + get_count failed r.by_status
          ≡ r.total)
unfolding report_quotations get_count
report_quotations_counts t =
    let jobs = list_quotations none t in
    let counts = λ (status : OutboxStatus). count_statuses_lem status [] jobs in
    (
      λ status. ground (arith, count_statuses_lem status [] jobs),
      omega (arith, counts queued, counts running, counts done, counts failed, total_lem jobs),
    )
