-- ===== src/Outbox/Queue.antt =====
-- app/outbox/queue.py: `enqueue`.
use fembin.Base.{
  ℕ, ◌+◌, Text, text_eq, Option, none, some, List, [], ◌∷◌, ◌++◌, Bool, true, false, if◌then◌else◌,
}
use fembin.Exec.{Exec, Result, ok, err}
use fembin.Json.{Json}
use fembin.Outbox.Models.{OutboxJob, Outbox, OutboxStatus}

-- select(OutboxJob).where(OutboxJob.idempotency_key == key)
unfoldable pub find_key : Text → List OutboxJob → Option OutboxJob
find_key k [] = none
find_key k (x ∷ xs) = if text_eq x.idempotency_key k then some x else find_key k xs

abbrev pub new_job : Text → Json → Text → ℕ → OutboxJob
new_job job_type payload key i = record {
  id = i;
  job_type = job_type;
  payload = payload;
  status = OutboxStatus.queued;
  attempts = 0;
  idempotency_key = key;
  result = none;
  last_error = none;
}

-- The INSERT at the commit: `none` is an IntegrityError, from the unique key, or, where `refused`
-- says so, from another constraint of the database.
unfoldable pub insert_job : Bool → Text → Json → Text → Outbox → Option (OutboxJob × Outbox)
insert_job true job_type payload key t = none
insert_job false job_type payload key t = elim (find_key key t.jobs) [
  | some _ ↦ none
  | none ↦
      let job = new_job job_type payload key t.next_id in
      some (job, record { jobs = t.jobs ++ job ∷ []; next_id = t.next_id + 1 })
]

module _ {E : Type 0} (integrity_error : E) where
  -- after the rollback: the row of the winner, or the error again
  lost_race : Text → Exec E Outbox OutboxJob
  lost_race key t = elim (find_key key t.jobs) [
    | none ↦ (err integrity_error, t)
    | some job ↦ (ok job, t)
  ]

  committed : Text → Outbox → Option (OutboxJob × Outbox) → Result E OutboxJob × Outbox
  unfolding lost_race
  committed key t none = lost_race key t
  committed key t (some (job, t')) = (ok job, t')

  -- The check, then what other sessions commit (`others`), then the insert.
  unfoldable pub enqueue :
      (refused : Bool) (others : Outbox → Outbox) (job_type : Text) (payload : Json) (key : Text)
      → Exec E Outbox OutboxJob
  unfolding committed
  enqueue refused others job_type payload key t = elim (find_key key t.jobs) [
    | some job ↦ (ok job, t)
    | none ↦ committed key (others t) (insert_job refused job_type payload key (others t))
  ]
