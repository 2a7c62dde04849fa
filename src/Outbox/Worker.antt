-- ===== src/Outbox/Worker.antt =====
-- app/outbox/worker.py: `process_next_job` and `drain_outbox`. The handlers and what they act on
-- are parameters; so are `type(exc).__name__` and `str(exc)`.
use fembin.Base.{
  ℕ, zero, suc, ◌+◌, Text, codes, Option, none, some, List, [], ◌∷◌, ◌++◌, Bool, not, ◌&&◌,
  if◌then◌else◌,
}
use fembin.Exec.{Exec, Result, ok, err}
use fembin.Base.Dict.{lookup, insert}
use fembin.Json.{Json}
use fembin.Outbox.Models.{OutboxJob, Outbox, OutboxStatus, is_queued, put_job}

-- The first row that is queued and that no other transaction has locked
-- (FOR UPDATE SKIP LOCKED), in the order of the ids.
unfoldable pub next_queued : (ℕ → Bool) → List OutboxJob → Option OutboxJob
next_queued locked [] = none
next_queued locked (x ∷ xs) =
    if is_queued x.status && not (locked x.id) then some x else next_queued locked xs

abbrev pub start : OutboxJob → OutboxJob
start job = record job { status = OutboxStatus.running; attempts = job.attempts + 1 }

abbrev pub set_failed : Text → OutboxJob → OutboxJob
set_failed message job = record job { status = OutboxStatus.failed; last_error = some message }

abbrev pub set_done : Json → OutboxJob → OutboxJob
set_done result job = record job { status = OutboxStatus.done; result = some result }

abbrev pub store : OutboxJob → Outbox → Outbox
store job t = record t { jobs = put_job job t.jobs }

-- `status = RUNNING; attempts += 1; commit()` on the claimed row
unfoldable pub claim : (ℕ → Bool) → Outbox → Option (OutboxJob × Outbox)
claim locked t = elim (next_queued locked t.jobs) [
  | none ↦ none
  | some job ↦ some (start job, store (start job) t)
]

abbrev pub Handler : Type 0 → Type 0 → Type 0
Handler E S = Json → Exec E S Json

-- `_HANDLERS[job_type] = handler`
unfoldable pub register_handler :
    {E S : Type 0} → Text → Handler E S → List (Text × Handler E S) → List (Text × Handler E S)
unfolding insert
register_handler = insert

module _ {E : Type 0} (type_name str_of : E → Text) where
  -- f"{type(exc).__name__}: {message}" if message else type(exc).__name__
  unfoldable pub error_message : E → Text
  error_message exc = elim (str_of exc) [
    | [] ↦ type_name exc
    | c ∷ message ↦ type_name exc ++ (codes ": " ++ c ∷ message)
  ]

  -- what the row becomes after its handler ended
  unfoldable pub settle : Result E Json → OutboxJob → OutboxJob
  unfolding error_message
  settle (ok result) job = set_done result job
  settle (err exc) job = set_failed (error_message exc) job

module _ {E S : Type 0} (type_name str_of : E → Text) where
  unfoldable pub run_job : Option (Handler E S) → OutboxJob → S → OutboxJob × S
  unfolding settle
  run_job none job s = (set_failed (codes "Unknown job_type: " ++ job.job_type) job, s)
  run_job (some handler) job s =
      let (r, s') = handler job.payload s in (settle type_name str_of r job, s')

  -- Claim and process one queued job, oldest first; `none` if there is none to claim.
  unfoldable pub process_next_job :
      (ℕ → Bool) → List (Text × Handler E S) → Outbox × S → Option OutboxJob × (Outbox × S)
  unfolding claim
  process_next_job locked handlers (t, s) = elim (claim locked t) [
    | none ↦ (none, (t, s))
    | some (job, t') ↦
        let (job', s') = run_job (lookup job.job_type handlers) job s in
        (some job', (store job' t', s'))
  ]

  -- `while True` until no job is claimed, on fuel; `none` means that the fuel ran out.
  unfoldable pub drain_outbox :
      ℕ → (ℕ → Bool) → List (Text × Handler E S) → ℕ → Outbox × S → Option (ℕ × (Outbox × S))
  drain_outbox zero locked handlers processed st = none
  drain_outbox (suc fuel) locked handlers processed st =
      let (job, st') = process_next_job locked handlers st in
      elim job [
        | none ↦ some (processed, st')
        | some _ ↦ drain_outbox fuel locked handlers (processed + 1) st'
      ]
