-- ===== src/Outbox/Steps.antt =====
-- Sessions and workers side by side, as steps on the committed table: requests enqueue, at once or
-- after others have written since their check saw some table without the key; any number of workers
-- claim (app/outbox/worker.py) while others hold locks, and a worker commits the end of
-- a job that it claimed. A worker that dies leaves its row running, which is no step.
use fembin.Base.{
  ℕ, ◌+◌, ◌<◌, ◌≤◌, ◌≡◌, refl, Text, Option, none, some, List, [], ◌∷◌, ◌++◌, Bool, true, false,
  arith, if◌then◌else◌, ◌==◌, Option-cases, inl, inr, All,
}
use fembin.Exec.{Result}
use fembin.Json.{Json}
use fembin.Outbox.Models.{OutboxJob, Outbox, is_queued, running, get_job, put_job}
use fembin.Outbox.Queue.{new_job, enqueue, find_key}
use fembin.Outbox.Worker.{next_queued, start, store, claim, settle}
use fembin.Outbox.Rows.{
  get_job-put_job_ne, get_job-put_job_self, put_job-IsSorted, next_queued-get_job,
}
use fembin.Outbox.Keys.{
  IsTable, HasUniqueKeys, enqueue-IsTable, enqueue_table, enqueue_late, insert_job-IsTable,
}

-- the committed table, and the id of each job whose handler was started, once for each start
pub record Config : Type 0 where
  pub table : Outbox
  pub started : List ℕ

-- how often the handler of a job was started
abbrev pub starts : ℕ → List ℕ → ℕ
starts i [] = 0
starts i (k ∷ ks) = (if k == i then 1 else 0) + starts i ks

abbrev ended_or_running : Option OutboxJob → ℕ
ended_or_running none = 0
ended_or_running (some j) = if is_queued j.status then 0 else 1

module _ {E : Type 0} (type_name str_of : E → Text) (integrity_error : E) where
  pub data Step (c : Config) : Config → Type 0 where
    add :
        (refused : Bool) (job_type : Text) (payload : Json) (key : Text)
        → Step c (record c {
          table = (enqueue integrity_error refused (λ u. u) job_type payload key c.table).1;
        })
    add_late :
        (seen : Outbox) (refused : Bool) (job_type : Text) (payload : Json) (key : Text)
        → find_key key seen.jobs ≡ none
        → Step c (record c {
          table = (enqueue integrity_error refused (λ u. c.table) job_type payload key seen).1;
        })
    begin :
        (locked : ℕ → Bool) (job : OutboxJob) (t : Outbox)
        → claim locked c.table ≡ some (job, t)
        → Step c (record { table = t; started = job.id ∷ c.started })
    finish :
        (job : OutboxJob) (r : Result E Json)
        → get_job job.id c.table.jobs ≡ some job
        → job.status ≡ running
        → Step c (record c { table = store (settle type_name str_of r job) c.table })

  pub data Reach (c : Config) : Config → Type 0 where
    here : Reach c c
    next : {d e : Config} → Reach c d → Step d e → Reach c e

-- a job's handler was started once if its row is not queued, and never if it is
pub record IsFair (c : Config) : Type 0 where
  pub valid : IsTable c.table
  pub counted : (i : ℕ) → starts i c.started ≡ ended_or_running (get_job i c.table.jobs)

pub get_job-append :
    (i : ℕ) (xs : List OutboxJob) (j : OutboxJob)
    → get_job i (xs ++ j ∷ [])
      ≡ elim (get_job i xs) [ some k ↦ some k | none ↦ if j.id == i then some j else none ]
unfolding get_job
get_job-append i [] j = refl
get_job-append i (x ∷ xs) j = ground (arith, get_job-append i xs j)

pub get_job-fresh : (n : ℕ) (xs : List OutboxJob) → All (λ j. j.id < n) xs → get_job n xs ≡ none
unfolding get_job
get_job-fresh n [] h = refl
get_job-fresh n (x ∷ xs) h = ground (arith, get_job-fresh n xs)

-- an update keeps the keys and the bound, if the new row keeps its key
find_key-put_job :
    (k : Text) (xs : List OutboxJob) (old new : OutboxJob)
    → get_job new.id xs ≡ some old
    → new.idempotency_key ≡ old.idempotency_key
    → find_key k xs ≡ none
    → find_key k (put_job new xs) ≡ none
unfolding get_job put_job find_key
find_key-put_job k [] old new g e h = ground arith
find_key-put_job k (x ∷ xs) old new g e h = ground (arith, find_key-put_job k xs old new)

put_job-HasUniqueKeys :
    (xs : List OutboxJob) (old new : OutboxJob)
    → get_job new.id xs ≡ some old
    → new.idempotency_key ≡ old.idempotency_key
    → HasUniqueKeys xs
    → HasUniqueKeys (put_job new xs)
unfolding get_job put_job
put_job-HasUniqueKeys [] old new g e u = tt
put_job-HasUniqueKeys (x ∷ xs) old new g e u =
    ground (arith, put_job-HasUniqueKeys xs old new, find_key-put_job x.idempotency_key xs old new)

put_job-below :
    (n : ℕ) (xs : List OutboxJob) (new : OutboxJob)
    → All (λ j. j.id < n) xs
    → All (λ j. j.id < n) (put_job new xs)
unfolding put_job
put_job-below n [] new h = tt
put_job-below n (x ∷ xs) new h = ground (arith, put_job-below n xs new h.1)

store-IsTable :
    (t : Outbox) (old new : OutboxJob)
    → get_job new.id t.jobs ≡ some old
    → new.idempotency_key ≡ old.idempotency_key
    → IsTable t
    → IsTable (store new t)
store-IsTable t old new g e v = record {
  sorted = put_job-IsSorted 0 new t.jobs v.sorted;
  below = put_job-below t.next_id t.jobs new v.below;
  unique = put_job-HasUniqueKeys t.jobs old new g e v.unique;
}

counted_begin :
    (t : Outbox) (ks : List ℕ) (old : OutboxJob) (i : ℕ)
    → get_job old.id t.jobs ≡ some old
    → is_queued old.status ≡ true
    → starts i ks ≡ ended_or_running (get_job i t.jobs)
    → starts i (old.id ∷ ks) ≡ ended_or_running (get_job i (put_job (start old) t.jobs))
counted_begin t ks old i g q h =
    ground (arith, get_job-put_job_ne i (start old) t.jobs, get_job-put_job_self (start old) t.jobs)

pub claim_cases :
    (locked : ℕ → Bool) (t t' : Outbox) (job : OutboxJob)
    → claim locked t ≡ some (job, t')
    → (old : OutboxJob) × (next_queued locked t.jobs ≡ some old)
      × (job ≡ start old)
      × (t' ≡ store (start old) t)
unfolding claim
claim_cases locked t t' job e = elim (Option-cases (next_queued locked t.jobs)) [
  | inl n ↦ absurd (ground arith)
  | inr (old, n) ↦ (old, n, ground arith, ground arith)
]

begin-IsFair :
    (c : Config) (old : OutboxJob)
    → get_job old.id c.table.jobs ≡ some old
    → is_queued old.status ≡ true
    → IsFair c
    → IsFair (record { table = store (start old) c.table; started = old.id ∷ c.started })
begin-IsFair c old g q f = record {
  valid = store-IsTable c.table old (start old) g refl f.valid;
  counted = λ i. counted_begin c.table c.started old i g q (f.counted i);
}

-- the row that a worker stores at the end has the id and the key of the one it claimed
pub settle_keeps :
    {E : Type 0} (type_name str_of : E → Text) (r : Result E Json) (job : OutboxJob)
    → let new = settle type_name str_of r job in
      (new.id ≡ job.id)
      × (new.idempotency_key ≡ job.idempotency_key)
      × (is_queued new.status ≡ false)
unfolding settle
settle_keeps type_name str_of r job = ground arith

finish-IsFair :
    (c : Config) (old new : OutboxJob)
    → get_job old.id c.table.jobs ≡ some old
    → old.status ≡ running
    → new.id ≡ old.id
    → new.idempotency_key ≡ old.idempotency_key
    → is_queued new.status ≡ false
    → IsFair c
    → IsFair (record c { table = store new c.table })
finish-IsFair c old new g running_now same key q f =
    let there : get_job new.id c.table.jobs ≡ some old = rw same g in
    record {
      valid = store-IsTable c.table old new there key f.valid;
      counted = λ i. ground (
        arith,
        f.counted i,
        get_job-put_job_ne i new c.table.jobs,
        get_job-put_job_self new c.table.jobs,
      );
    }

append-IsFair :
    (c : Config) (job_type : Text) (payload : Json) (key : Text)
    → find_key key c.table.jobs ≡ none
    → IsFair c
    → IsFair (record c {
      table = record {
        jobs = c.table.jobs ++ new_job job_type payload key c.table.next_id ∷ [];
        next_id = c.table.next_id + 1;
      };
    })
append-IsFair c job_type payload key new f = record {
  valid = insert_job-IsTable job_type payload key c.table f.valid new;
  counted = λ i. ground (
    arith,
    f.counted i,
    get_job-append i c.table.jobs (new_job job_type payload key c.table.next_id),
    get_job-fresh c.table.next_id c.table.jobs f.valid.below,
  );
}

module _ {E : Type 0} (type_name str_of : E → Text) (integrity_error : E) where
  pub Step-IsFair : {c d : Config} → Step type_name str_of integrity_error c d → IsFair c → IsFair d
  Step-IsFair {c} (add refused job_type payload key) f = record {
    valid =
        enqueue-IsTable job_type payload key integrity_error refused (λ u. u) c.table (λ u h. h)
          f.valid;
    counted = λ i. ground (
      arith,
      f.counted i,
      enqueue_table job_type payload key integrity_error refused (λ u. u) c.table,
      get_job-append i c.table.jobs (new_job job_type payload key c.table.next_id),
      get_job-fresh c.table.next_id c.table.jobs f.valid.below,
    );
  }
  Step-IsFair {c} (add_late seen refused job_type payload key e) f =
      elim (enqueue_late job_type payload key integrity_error refused seen c.table e) [
        | inl same ↦ rw same f
        | inr (new, added) ↦ rw added (append-IsFair c job_type payload key new f)
      ]
  Step-IsFair {c} (begin locked job t e) f =
      let (old, n, is_start, stored) = claim_cases locked c.table t job e in
      let facts = next_queued-get_job locked 0 c.table.jobs f.valid.sorted n in
      rw (is_start, stored) (begin-IsFair c old facts.0 facts.1 f)
  Step-IsFair {c} (finish job r g running_now) f =
      let kept = settle_keeps type_name str_of r job in
      finish-IsFair c job (settle type_name str_of r job) g running_now kept.0 kept.1 kept.2 f

  pub Reach-IsFair :
      {c d : Config} → Reach type_name str_of integrity_error c d → IsFair c → IsFair d
  Reach-IsFair here f = f
  Reach-IsFair (next r s) f = Step-IsFair s (Reach-IsFair r f)

  -- From a valid table on which each queued row was never started and each other row once,
  -- whatever requests and workers do side by side, no job's handler is started twice: at the end
  -- too, a queued job was never started, and any other row of the table exactly once.
  pub started_once :
      {c d : Config} (i : ℕ)
      → Reach type_name str_of integrity_error c d
      → IsFair c
      → (starts i d.started ≤ 1)
        × ((j : OutboxJob)
            → get_job i d.table.jobs ≡ some j
            → starts i d.started ≡ (if is_queued j.status then 0 else 1))
  started_once {c} {d} i r f =
      let fair = Reach-IsFair r f in
      (ground (arith, fair.counted i), λ j g. ground (arith, fair.counted i))
