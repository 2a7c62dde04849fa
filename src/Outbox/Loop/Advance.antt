-- ===== src/Outbox/Loop/Advance.antt =====
-- `drain_outbox` of app/outbox/worker.py beside the locks of other workers: it returns, no row is
-- lost, and a row that had ended or was running stays as it was.
use fembin.Base.{
  ℕ, zero, suc, ◌+◌, ◌<◌, ◌≡◌, refl, ap, ◌∙◌, Text, some, List, Bool, true, false, arith,
  Option-cases, inl, inr, ◌==◌, Bool-cases,
}
use fembin.Outbox.Models.{OutboxJob, Outbox, is_queued, get_job, queued}
use fembin.Outbox.Worker.{Handler, process_next_job, drain_outbox}
use fembin.Outbox.Rows.{IsSorted, count_queued}
use fembin.Outbox.Process.{EndsOldest, drain_round, process_idle, process_next_job-EndsOldest}

-- no row vanishes, and a row that is not queued does not change
abbrev pub Advances : Outbox → Outbox → Type 0
Advances t t' =
    (i : ℕ) (j : OutboxJob)
    → get_job i t.jobs ≡ some j
    → (j' : OutboxJob) × (get_job i t'.jobs ≡ some j') × (is_queued j.status ≡ false → j' ≡ j)

pub Advances-refl : (t : Outbox) → Advances t t
Advances-refl t i j g = (j, g, λ q. refl)

pub Advances-trans : (t u v : Outbox) → Advances t u → Advances u v → Advances t v
Advances-trans t u v f g i j there =
    let (j', there', same) = f i j there in
    let (j'', there'', same') = g i j' there' in
    (j'', there'', λ q. let e = same q in same' (rw e q) ∙ e)

EndsOldest-Advances :
    (locked : ℕ → Bool) (t t' : Outbox) (job : OutboxJob)
    → EndsOldest locked t t' job
    → Advances t t'
EndsOldest-Advances locked t t' job e i j there = elim (Bool-cases (i == job.id)) [
  | inl same ↦ (job, ground (arith, e.is_stored), λ q. absurd (ground (arith, e.was_there)))
  | inr other ↦ (j, ground (arith, e.others i), λ q. refl)
]

-- what a drain of `t` beside those locks leaves
pub record Drained (locked : ℕ → Bool) (t t' : Outbox) : Type 0 where
  pub sorted : IsSorted 0 t'.jobs
  pub advances : Advances t t'
  pub empty :
      (i : ℕ) (k : OutboxJob) → get_job i t'.jobs ≡ some k → k.status ≡ queued → locked i ≡ true

module _ {E S : Type 0} (type_name str_of : E → Text) (locked : ℕ → Bool)
    (handlers : List (Text × Handler E S)) where
  process_next_job-Advances :
      (t : Outbox) (s : S) (job : OutboxJob)
      → IsSorted 0 t.jobs
      → (process_next_job type_name str_of locked handlers (t, s)).0 ≡ some job
      → Advances t (process_next_job type_name str_of locked handlers (t, s)).1.0
  process_next_job-Advances t s job sorted e =
      EndsOldest-Advances locked t (process_next_job type_name str_of locked handlers (t, s)).1.0
        job (process_next_job-EndsOldest type_name str_of locked handlers t s job sorted e)

  pub drain_returns :
      (fuel processed : ℕ) (t : Outbox) (s : S)
      → IsSorted 0 t.jobs
      → count_queued t.jobs < fuel
      → (n : ℕ) × (t' : Outbox) × (s' : S) × (drain_outbox type_name str_of fuel locked handlers
            processed
            (t, s)
          ≡ some (n, (t', s')))
        × Drained locked t t'
  unfolding drain_outbox
  drain_returns zero processed t s sorted h = absurd (omega arith)
  drain_returns (suc fuel) processed t s sorted h =
      let round = process_next_job type_name str_of locked handlers (t, s) in
      elim (Option-cases round.0) [
        | inl e ↦
            let idle = process_idle type_name str_of locked handlers t s e in
            (
              processed,
              t,
              s,
              ground (arith, ap (λ (r : Outbox × S). r.0) idle.0),
              record { sorted = sorted; advances = Advances-refl t; empty = idle.1 },
            )
        | inr (job, e) ↦ elim (drain_round type_name str_of handlers locked t s sorted) [
          | inl (idle, free, same) ↦ absurd (ground arith)
          | inr (claimed, fewer, sorted') ↦
              let (n, t', s', done, rest) =
                drain_returns fuel (processed + 1) round.1.0 round.1.1 sorted' (omega arith) in
              (
                n,
                t',
                s',
                ground arith,
                record {
                  sorted = rest.sorted;
                  advances =
                      Advances-trans t round.1.0 t' (process_next_job-Advances t s job sorted e)
                        rest.advances;
                  empty = rest.empty;
                },
              )
        ]
      ]
