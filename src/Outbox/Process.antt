-- ===== src/Outbox/Process.antt =====
-- `process_next_job` and `drain_outbox` of app/outbox/worker.py: what becomes of the claimed row,
-- what is left alone, and that a drain ends with nothing queued.
use fembin.Base.{
  ℕ, zero, suc, ◌+◌, ◌<◌, ◌≤◌, ◌≡◌, ◌≢◌, ◌⊎◌, refl, ap, Text, Option, none, some, List, Bool, true,
  false, arith, Option-cases, inl, inr,
}
use mathlib.Core.Path.{subst}
use fembin.Base.Dict.{lookup}
use fembin.Outbox.Models.{
  OutboxJob, Outbox, OutboxStatus, is_queued, queued, done, failed, get_job, put_job,
}
use fembin.Outbox.Worker.{
  Handler, next_queued, start, store, run_job, process_next_job, drain_outbox,
}
use fembin.Outbox.Rows.{
  IsSorted, unlocked, count_queued, get_job-put_job_ne, get_job-put_job_self, put_job-IsSorted,
  next_queued-get_job, next_queued_oldest, next_queued-none, count_queued-none,
  count_queued-put_job,
}

-- A job that has ended: what it was asked to do is as it was, and it is done with a result, or
-- failed with a message.
pub record HasEnded (old new : OutboxJob) : Type 0 where
  pub same_id : new.id ≡ old.id
  pub same_type : new.job_type ≡ old.job_type
  pub same_payload : new.payload ≡ old.payload
  pub same_key : new.idempotency_key ≡ old.idempotency_key
  pub one_attempt : new.attempts ≡ old.attempts + 1
  pub ended :
      ((new.status ≡ done) × (new.result ≢ none))
      ⊎ ((new.status ≡ failed) × (new.last_error ≢ none))

-- `job` is what became of the oldest row that was free and queued, and no other row changed.
pub record EndsOldest (locked : ℕ → Bool) (t t' : Outbox) (job : OutboxJob) : Type 0 where
  pub old : OutboxJob
  pub was_there : get_job job.id t.jobs ≡ some old
  pub was_queued : old.status ≡ queued
  pub has_ended : HasEnded old job
  pub is_stored : get_job job.id t'.jobs ≡ some job
  pub others : (i : ℕ) → i ≢ job.id → get_job i t'.jobs ≡ get_job i t.jobs
  pub oldest :
      (i : ℕ) (k : OutboxJob)
      → get_job i t.jobs ≡ some k
      → k.status ≡ queued
      → locked i ≡ false
      → job.id ≤ i

queued_of_test : (s : OutboxStatus) → is_queued s ≡ true → s ≡ queued
queued_of_test s h = ground arith

-- Two updates of one row, the second being the row that is left.
module _ (t : Outbox) (old mid new : OutboxJob) (there : get_job old.id t.jobs ≡ some old) where
  module _ (m : mid.id ≡ old.id) (n : new.id ≡ old.id) where
    get_job-twice_self : get_job new.id (put_job new (put_job mid t.jobs)) ≡ some new
    get_job-twice_self =
        get_job-put_job_self new (put_job mid t.jobs)
          (ground (arith, get_job-put_job_self mid t.jobs))

    get_job-twice_ne :
        (i : ℕ) → i ≢ new.id → get_job i (put_job new (put_job mid t.jobs)) ≡ get_job i t.jobs
    get_job-twice_ne i h =
        ground
          (arith, get_job-put_job_ne i new (put_job mid t.jobs), get_job-put_job_ne i mid t.jobs)

    count_queued-twice :
        is_queued old.status ≡ true
        → is_queued mid.status ≡ false
        → is_queued new.status ≡ false
        → count_queued (put_job new (put_job mid t.jobs)) + 1 ≡ count_queued t.jobs
    count_queued-twice q q' q'' = ground (
      arith,
      get_job-put_job_self mid t.jobs,
      count_queued-put_job t.jobs old mid,
      count_queued-put_job (put_job mid t.jobs) mid new,
    )

not_queued : (old new : OutboxJob) → HasEnded old new → is_queued new.status ≡ false
not_queued old new h = ground arith

module _ {E S : Type 0} (type_name str_of : E → Text) where
  pub run_job-HasEnded :
      (h : Option (Handler E S)) (old : OutboxJob) (s : S)
      → HasEnded old (run_job type_name str_of h (start old) s).0
  unfolding run_job
  run_job-HasEnded h old s = ground arith

  module _ (locked : ℕ → Bool) (handlers : List (Text × Handler E S)) (t : Outbox) (s : S) where
    abbrev pub step : Option OutboxJob × (Outbox × S)
    step = process_next_job type_name str_of locked handlers (t, s)

    abbrev pub run : OutboxJob → OutboxJob × S
    run old = run_job type_name str_of (lookup old.job_type handlers) (start old) s

    pub step-none : next_queued locked t.jobs ≡ none → step ≡ (none, (t, s))
    unfolding process_next_job
    step-none e = ground arith

    pub step-some :
        (old : OutboxJob)
        → next_queued locked t.jobs ≡ some old
        → step ≡ (some (run old).0, (store (run old).0 (store (start old) t), (run old).1))
    unfolding process_next_job
    step-some old e = ground arith

    -- If no job is processed, then every queued row is locked by another transaction, and nothing
    -- has changed.
    pub process_idle :
        step.0 ≡ none
        → (step.1 ≡ (t, s))
          × ((i : ℕ) (k : OutboxJob)
              → get_job i t.jobs ≡ some k
              → k.status ≡ queued
              → locked i ≡ true)
    process_idle h = elim (Option-cases (next_queued locked t.jobs)) [
      | inl e ↦ (
        ap (λ (r : Option OutboxJob × (Outbox × S)). r.1) (step-none e),
        λ i k there q. next_queued-none locked i t.jobs e there (rw q),
      )
      | inr (old, e) ↦ absurd (ground (arith, step-some old e))
    ]

    step_ends :
        (old : OutboxJob)
        → IsSorted 0 t.jobs
        → next_queued locked t.jobs ≡ some old
        → EndsOldest locked t (store (run old).0 (store (start old) t)) (run old).0
    step_ends old sorted e =
        let facts = next_queued-get_job locked 0 t.jobs sorted e in
        let ended = run_job-HasEnded (lookup old.job_type handlers) old s in
        record {
          old = old;
          was_there = rw ended.same_id facts.0;
          was_queued = queued_of_test old.status facts.1;
          has_ended = ended;
          is_stored = get_job-twice_self t old (start old) (run old).0 facts.0 refl ended.same_id;
          others = get_job-twice_ne t old (start old) (run old).0 facts.0 refl ended.same_id;
          oldest = λ i k there q u.
              rw ended.same_id (next_queued_oldest locked 0 i t.jobs sorted e there (rw q) u);
        }

    -- On a table in the order of its ids, a processed job was the oldest queued row that no other
    -- transaction had locked; it has ended, with one attempt more, and no other row changed.
    pub process_next_job-EndsOldest :
        (job : OutboxJob) → IsSorted 0 t.jobs → step.0 ≡ some job → EndsOldest locked t step.1.0 job
    process_next_job-EndsOldest job sorted h = elim (Option-cases (next_queued locked t.jobs)) [
      | inl e ↦ absurd (ground (arith, step-none e))
      | inr (old, e) ↦
          let same : (run old).0 ≡ job = ground (arith, step-some old e) in
          rw (step-some old e) (subst (EndsOldest locked t _) same (step_ends old sorted e))
    ]

  module _ (handlers : List (Text × Handler E S)) where
    -- One round of the drain: nothing was free and queued, or there is one queued row less.
    pub drain_round :
        (locked : ℕ → Bool) (t : Outbox) (s : S)
        → IsSorted 0 t.jobs
        → let (job, (t', s')) = process_next_job type_name str_of locked handlers (t, s) in
          ((job ≡ none) × (next_queued locked t.jobs ≡ none) × (t' ≡ t))
          ⊎ ((job ≢ none) × (count_queued t'.jobs + 1 ≡ count_queued t.jobs) × IsSorted 0 t'.jobs)
    drain_round locked t s sorted = elim (Option-cases (next_queued locked t.jobs)) [
      | inl e ↦ rw (step-none locked handlers t s e) (inl (refl, e, refl))
      | inr (old, e) ↦
          let facts = next_queued-get_job locked 0 t.jobs sorted e in
          let ended = run_job-HasEnded (lookup old.job_type handlers) old s in
          let job = (run locked handlers t s old).0 in
          rw (step-some locked handlers t s old e) (
            inr (
              λ n. cc,
              count_queued-twice t old (start old) job facts.0 refl ended.same_id facts.1 refl
                  (not_queued old job ended),
              put_job-IsSorted 0 job (put_job (start old) t.jobs)
                  (put_job-IsSorted 0 (start old) t.jobs sorted),
            ))
    ]

    -- On a table in the order of its ids and with no row locked, a drain with more fuel than
    -- queued rows returns: it has processed exactly as many jobs as were queued, and leaves none
    -- queued.
    pub drain_total :
        (fuel processed : ℕ) (t : Outbox) (s : S)
        → IsSorted 0 t.jobs
        → count_queued t.jobs < fuel
        → (t' : Outbox) × (s' : S) × (drain_outbox type_name str_of fuel unlocked handlers processed
              (t, s)
            ≡ some (processed + count_queued t.jobs, (t', s')))
          × (count_queued t'.jobs ≡ 0)
          × IsSorted 0 t'.jobs
    unfolding drain_outbox
    drain_total zero processed t s sorted h = absurd (omega arith)
    drain_total (suc fuel) processed t s sorted h =
        let round = process_next_job type_name str_of unlocked handlers (t, s) in
        elim (drain_round unlocked t s sorted) [
          | inl (idle, free, same) ↦
              let empty = count_queued-none t.jobs free in
              (round.1.0, round.1.1, ground arith, ground arith, rw same sorted)
          | inr (claimed, fewer, sorted') ↦
              let (t', s', e, empty, sorted'') =
                drain_total fuel (processed + 1) round.1.0 round.1.1 sorted' (omega arith) in
              (t', s', ground arith, empty, sorted'')
        ]
