-- ===== src/Outbox/Refines.antt =====
-- What the outbox promises its clients: a key names one job for good, and a job is asked for,
-- started and over, each once and in this order. The steps of app/outbox keep that promise.
use fembin.Base.{
  ℕ, ◌≡◌, refl, sym, Text, text_eq, text_eq_iff, Option, none, some, List, [], ◌∷◌, ◌++◌, ◌+◌, true,
  arith, if◌then◌else◌, ◌==◌, inl, inr,
}
use mathlib.Core.Path.{subst}
use fembin.Exec.{Result}
use fembin.Json.{Json}
use fembin.Outbox.Models.{
  OutboxJob, Outbox, queued, running, done, failed, is_queued, get_job, put_job,
}
use fembin.Outbox.Queue.{find_key, new_job}
use fembin.Outbox.Keys.{enqueue_table, enqueue_late}
use fembin.Outbox.Worker.{start, store, settle}
use fembin.Outbox.Rows.{get_job-put_job_ne, get_job-put_job_self, next_queued-get_job}
use fembin.Outbox.Steps.{
  Config, Step, Reach, IsFair, Reach-IsFair, claim_cases, settle_keeps, get_job-append,
  get_job-fresh,
}

pub data Phase : Type 0 where
  absent asked started over : Phase

-- the job of each key, and how far each job is
pub record Promise : Type 0 where
  pub owner : Text → Option ℕ
  pub phase : ℕ → Phase

-- one job moves on, and no key changes hands
pub record Moves (i : ℕ) (from to : Phase) (p q : Promise) : Type 0 where
  pub was : p.phase i ≡ from
  pub phases : (k : ℕ) → q.phase k ≡ (if i == k then to else p.phase k)
  pub owners : (key : Text) → q.owner key ≡ p.owner key

pub data Promised (p q : Promise) : Type 0 where
  nothing :
      ((k : ℕ) → q.phase k ≡ p.phase k) → ((key : Text) → q.owner key ≡ p.owner key) → Promised p q
  ask :
      (key : Text) (i : ℕ)
      → p.owner key ≡ none
      → p.phase i ≡ absent
      → ((k : ℕ) → q.phase k ≡ (if i == k then asked else p.phase k))
      → ((k : Text) → q.owner k ≡ (if text_eq key k then some i else p.owner k))
      → Promised p q
  begin : (i : ℕ) → Moves i asked started p q → Promised p q
  finish : (i : ℕ) → Moves i started over p q → Promised p q

pub data PromisedAll (p : Promise) : Promise → Type 0 where
  here : PromisedAll p p
  next : {q r : Promise} → PromisedAll p q → Promised q r → PromisedAll p r

abbrev pub phase_of : Option OutboxJob → Phase
phase_of none = absent
phase_of (some j) = elim j.status [
  | queued ↦ asked
  | running ↦ started
  | done ↦ over
  | failed ↦ over
]

abbrev pub id_of : Option OutboxJob → Option ℕ
id_of none = none
id_of (some j) = some j.id

-- what a table stands for
abbrev pub promise : Config → Promise
promise c = record {
  owner = λ key. id_of (find_key key c.table.jobs);
  phase = λ i. phase_of (get_job i c.table.jobs);
}

find_key-append_any :
    (k : Text) (xs : List OutboxJob) (j : OutboxJob)
    → find_key k (xs ++ j ∷ []) ≡ elim (find_key k xs) [
      | some x ↦ some x
      | none ↦ if text_eq j.idempotency_key k then some j else none
    ]
unfolding find_key
find_key-append_any k [] j = refl
find_key-append_any k (x ∷ xs) j = ground (arith, find_key-append_any k xs j)

-- an update of a row that keeps its key leaves the keys with their jobs
owner-put_job :
    (k : Text) (xs : List OutboxJob) (old new : OutboxJob)
    → get_job new.id xs ≡ some old
    → new.idempotency_key ≡ old.idempotency_key
    → id_of (find_key k (put_job new xs)) ≡ id_of (find_key k xs)
unfolding get_job put_job find_key
owner-put_job k [] old new g e = refl
owner-put_job k (x ∷ xs) old new g e = ground (arith, owner-put_job k xs old new)

module _ (t : Outbox) (old new : OutboxJob) (there : get_job old.id t.jobs ≡ some old)
    (same_id : new.id ≡ old.id) (same_key : new.idempotency_key ≡ old.idempotency_key)
    (starts_0 starts_1 : List ℕ) where
  -- the update of one row as a move
  store-Moves :
      (from to : Phase)
      → phase_of (some old) ≡ from
      → phase_of (some new) ≡ to
      → Moves old.id from to
          (promise (record { table = t; started = starts_0 }))
          (promise (record { table = store new t; started = starts_1 }))
  store-Moves from to f g = record {
    was = ground (arith);
    phases = λ k. ground (arith, get_job-put_job_self new t.jobs, get_job-put_job_ne k new t.jobs);
    owners = λ key. owner-put_job key t.jobs old new (rw same_id there) same_key;
  }

settled_phase :
    {E : Type 0} (type_name str_of : E → Text) (r : Result E Json) (job : OutboxJob)
    → phase_of (some (settle type_name str_of r job)) ≡ over
unfolding settle
settled_phase type_name str_of r job = ground arith

queued_phase : (j : OutboxJob) → is_queued j.status ≡ true → phase_of (some j) ≡ asked
queued_phase j h = ground arith

-- a new row is a job that its key asks for
append-Promised :
    (c : Config) (job_type : Text) (payload : Json) (key : Text)
    → find_key key c.table.jobs ≡ none
    → IsFair c
    → Promised (promise c) (
        promise (record c {
          table = record {
            jobs = c.table.jobs ++ new_job job_type payload key c.table.next_id ∷ [];
            next_id = c.table.next_id + 1;
          };
        }))
append-Promised c job_type payload key new f =
    let job = new_job job_type payload key c.table.next_id in
    ask key c.table.next_id (ground arith)
      (ground (arith, get_job-fresh c.table.next_id c.table.jobs f.valid.below))
      (λ k. ground (
        arith,
        get_job-append k c.table.jobs job,
        get_job-fresh c.table.next_id c.table.jobs f.valid.below,
      ))
      (λ k. ground (arith, find_key-append_any k c.table.jobs job, text_eq_iff key k))

module _ {E : Type 0} (type_name str_of : E → Text) (integrity_error : E) where
  Step-Promised :
      {c d : Config}
      → Step type_name str_of integrity_error c d
      → IsFair c
      → Promised (promise c) (promise d)
  Step-Promised {c} (Step.add refused job_type payload key) f =
      elim (enqueue_table job_type payload key integrity_error refused (λ u. u) c.table) [
        | inl same ↦ rw same (nothing (λ k. refl) (λ k. refl))
        | inr (inl same) ↦ rw same (nothing (λ k. refl) (λ k. refl))
        | inr (inr (new, added)) ↦ rw added (append-Promised c job_type payload key new f)
      ]
  Step-Promised {c} (Step.add_late seen refused job_type payload key e) f =
      elim (enqueue_late job_type payload key integrity_error refused seen c.table e) [
        | inl same ↦ rw same (nothing (λ k. refl) (λ k. refl))
        | inr (new, added) ↦ rw added (append-Promised c job_type payload key new f)
      ]
  Step-Promised {c} (Step.begin locked job t e) f =
      let (old, n, is_start, stored) = claim_cases locked c.table t job e in
      let facts = next_queued-get_job locked 0 c.table.jobs f.valid.sorted n in
      subst
        (λ (u : Outbox).
          Promised (promise c) (promise (record { table = u; started = job.id ∷ c.started })))
        (sym stored)
        (Promised.begin old.id (
          store-Moves c.table old (start old) facts.0 refl refl c.started (old.id ∷ c.started) asked
            started (queued_phase old facts.1) refl))
  Step-Promised {c} (Step.finish job r g running_now) f =
      let kept = settle_keeps type_name str_of r job in
      Promised.finish job.id (
        store-Moves c.table job (settle type_name str_of r job) g kept.0 kept.1 c.started c.started
          started over (ground arith) (settled_phase type_name str_of r job))

  -- From a valid table, whatever requests and workers do side by side, also where others write
  -- between the check and the insert of a request, is a run of the promise: a key that names a job
  -- names it for good, and each job is asked for, started and over, once each and in this order.
  pub Reach-PromisedAll :
      {c d : Config}
      → Reach type_name str_of integrity_error c d
      → IsFair c
      → PromisedAll (promise c) (promise d)
  Reach-PromisedAll Reach.here f = PromisedAll.here
  Reach-PromisedAll (Reach.next r s) f =
      PromisedAll.next (Reach-PromisedAll r f)
        (Step-Promised s (Reach-IsFair type_name str_of integrity_error r f))
