-- ===== src/Tests/Jobs.antt =====
-- The worker with the handlers of the program, on the job of one quotation.
use fembin.Base.{◌≡◌, refl, Option, none, some, [], ◌∷◌, List, false}
use fembin.Db.{State}
use fembin.Busy.Client.{Headers}
use fembin.Busy.Posts.{logging}
use fembin.Outbox.Models.{OutboxJob, Outbox}
use fembin.Outbox.Worker.{process_next_job, next_queued}
use fembin.Outbox.Process.{run_job-HasEnded}
use fembin.Base.Dict.{lookup}
use fembin.Orders.Queue.{job_type}
use fembin.Orders.Handler.{handlers}
use fembin.Orders.Handler.Job.{Told, process_next_job-Told}
use fembin.Tests.Data.{busy, repr, accepts, no_name}
use fembin.Tests.Orders.{quotation, logged}

abbrev waiting : Outbox
waiting = record { jobs = quotation ∷ []; next_id = 7 }

abbrev processed : Option OutboxJob × (Outbox × State (Unit × List Headers))
processed =
    process_next_job no_name no_name (λ i. false) (handlers repr accepts (logging busy))
      (waiting, logged)

abbrev ended : OutboxJob
ended = elim processed.0 [ none ↦ quotation | some job ↦ job ]

is_processed : processed.0 ≡ some ended
unfolding process_next_job next_queued
is_processed = refl

is_quotation : ended.job_type ≡ job_type
unfolding process_next_job next_queued
is_quotation =
    (run_job-HasEnded no_name no_name (lookup job_type (handlers repr accepts (logging busy)))
      quotation logged).same_type

process_next_job-Told_example : Told repr accepts busy ended logged processed.1.1
process_next_job-Told_example =
    process_next_job-Told repr accepts busy no_name no_name (λ i. false) waiting logged ended
      is_quotation is_processed
