-- ===== src/Outbox/Loop/Drains.antt =====
-- `outbox_worker_loop` of app/outbox/worker.py: what becomes of the jobs while it runs.
use fembin.Base.{
  ℕ, ◌+◌, ◌≡◌, Text, some, List, [], ◌∷◌, ◌++◌, true, false, arith, All, Bool-cases, inl, inr,
}
use fembin.Outbox.Models.{OutboxJob, Outbox, is_queued, get_job, queued}
use fembin.Outbox.Worker.{Handler}
use fembin.Outbox.Rows.{IsSorted, count_queued}
use fembin.Outbox.Loop.{Turn, drain_or_log, outbox_worker_loop}
use fembin.Outbox.Loop.Advance.{Advances, Advances-refl, Advances-trans, drain_returns}

-- what other sessions commit keeps the order of the ids, every row, and the rows that have ended
pub record IsOrderly (turn : Turn) : Type 0 where
  pub sorted : (t : Outbox) → IsSorted 0 t.jobs → IsSorted 0 (turn.others t).jobs
  pub advances : (t : Outbox) → Advances t (turn.others t)

module _ {E S : Type 0} (type_name str_of : E → Text) (handlers : List (Text × Handler E S)) where
  drain_or_log_returns :
      (turn : Turn) (t : Outbox) (s : S)
      → IsSorted 0 t.jobs
      → (t' : Outbox) × (s' : S) × (drain_or_log type_name str_of handlers turn (t, s)
          ≡ some (t', s'))
        × IsSorted 0 t'.jobs
        × Advances t t'
        × (turn.connects ≡ true
            → (i : ℕ) (k : OutboxJob) → get_job i t'.jobs ≡ some k
            → k.status ≡ queued
            → turn.locked i ≡ true)
  unfolding drain_or_log
  drain_or_log_returns turn t s sorted = elim (Bool-cases turn.connects) [
    | inl up ↦
        let (n, t', s', e, d) =
          drain_returns type_name str_of turn.locked handlers (count_queued t.jobs + 1) 0 t s sorted
            (omega arith) in
        (t', s', ground arith, d.sorted, d.advances, λ c. d.empty)
    | inr down ↦ (t, s, ground arith, sorted, Advances-refl t, λ c. absurd (ground arith))
  ]

  loop-Advances :
      (turns : List Turn) (t : Outbox) (s : S)
      → IsSorted 0 t.jobs
      → All IsOrderly turns
      → (t' : Outbox) × (s' : S) × (outbox_worker_loop type_name str_of handlers turns (t, s)
          ≡ some (t', s'))
        × Advances t t'
  unfolding outbox_worker_loop
  loop-Advances [] t s sorted o = (t, s, ground arith, Advances-refl t)
  loop-Advances (turn ∷ turns) t s sorted (now, later) =
      let (u, v, e, sorted', adv, empty) = drain_or_log_returns turn t s sorted in
      let (t', s', done, adv') =
        loop-Advances turns (turn.others u) v (now.sorted u sorted') later in
      (
        t',
        s',
        ground arith,
        Advances-trans t u t' adv (Advances-trans u (turn.others u) t' (now.advances u) adv'),
      )

  -- the row of a job that a drain has left, at the end of the loop
  ended_at :
      (turn : Turn) (i : ℕ) (u t' : Outbox) (k : OutboxJob)
      → turn.locked i ≡ false
      → get_job i u.jobs ≡ some k
      → (k.status ≡ queued → turn.locked i ≡ true)
      → Advances u t'
      → (j : OutboxJob) × (get_job i t'.jobs ≡ some j) × (is_queued j.status ≡ false)
  ended_at turn i u t' k free there empty adv = elim (Bool-cases (is_queued k.status)) [
    | inl q ↦ absurd (ground (arith, empty (ground arith)))
    | inr q ↦ let (j, there', same) = adv i k there in let e = same q in (j, there', ground arith)
  ]

  -- If some turn of the worker's loop gets its connections while no one else holds the row of a
  -- job that is in the table from the start, then, whatever turns failed before or fail after
  -- it, the loop returns and that job is in the table and no longer queued. The other sessions
  -- keep the order of the ids, every row, and each row that is not queued.
  pub outbox_worker_loop_ends :
      (before : List Turn) (turn : Turn) (after : List Turn) (t : Outbox) (s : S) (i : ℕ)
      (j : OutboxJob)
      → IsSorted 0 t.jobs
      → All IsOrderly (before ++ turn ∷ after)
      → turn.connects ≡ true
      → turn.locked i ≡ false
      → get_job i t.jobs ≡ some j
      → (t' : Outbox) × (s' : S) × (j' : OutboxJob) × (outbox_worker_loop type_name str_of handlers
            (before ++ turn ∷ after)
            (t, s)
          ≡ some (t', s'))
        × (get_job i t'.jobs ≡ some j')
        × (is_queued j'.status ≡ false)
  unfolding outbox_worker_loop
  outbox_worker_loop_ends [] turn after t s i j sorted (now, later) up free there =
      let (u, v, e, sorted', adv, empty) = drain_or_log_returns turn t s sorted in
      let (t', s', done, adv') =
        loop-Advances after (turn.others u) v (now.sorted u sorted') later in
      let (k, there', same) = adv i j there in
      let (j', there'', ended) =
        ended_at turn i u t' k free there' (empty up i k there')
          (Advances-trans u (turn.others u) t' (now.advances u) adv') in
      (t', s', j', ground arith, there'', ended)
  outbox_worker_loop_ends (first ∷ before) turn after t s i j sorted (now, later) up free there =
      let (u, v, e, sorted', adv, empty) = drain_or_log_returns first t s sorted in
      let (k, there', same) = adv i j there in
      let (l, there'', same') = now.advances u i k there' in
      let (t', s', j', done, at_end, ended) =
        outbox_worker_loop_ends before turn after (first.others u) v i l (now.sorted u sorted')
          later up free there'' in
      (t', s', j', ground arith, at_end, ended)
