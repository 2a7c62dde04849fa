-- ===== src/Outbox/Keys.antt =====
-- `enqueue` of app/outbox/queue.py: idempotence, also when another session wins the race, and the
-- invariant of the table.
use fembin.Base.{
  ℕ, suc, ◌+◌, ◌<◌, ◌≤◌, ◌≡◌, refl, Text, text_eq, text_eq_iff, text_eq_refl, none, some, List, [],
  ◌∷◌, ◌++◌, Bool, false, arith, if◌then◌else◌, All, All-append, Option-cases, inl, inr, ◌⊎◌,
}
use fembin.Exec.{ok}
use fembin.Json.{Json}
use fembin.Outbox.Models.{OutboxJob, Outbox}
use fembin.Outbox.Queue.{find_key, new_job, insert_job, enqueue}
use fembin.Outbox.Rows.{IsSorted}

-- no two rows have one key
abbrev pub HasUniqueKeys : List OutboxJob → Type 0
HasUniqueKeys [] = Unit
HasUniqueKeys (x ∷ xs) = (find_key x.idempotency_key xs ≡ none) × HasUniqueKeys xs

-- The invariant: ids increase below the next one, and no key stands twice.
pub record IsTable (t : Outbox) : Type 0 where
  pub sorted : IsSorted 0 t.jobs
  pub below : All (λ j. j.id < t.next_id) t.jobs
  pub unique : HasUniqueKeys t.jobs

pub find_key-append :
    (k : Text) (xs : List OutboxJob) (j : OutboxJob)
    → find_key k xs ≡ none
    → find_key k (xs ++ j ∷ []) ≡ (if text_eq j.idempotency_key k then some j else none)
unfolding find_key
find_key-append k [] j h = refl
find_key-append k (x ∷ xs) j h = ground (arith, find_key-append k xs j)

pub HasUniqueKeys-append :
    (xs : List OutboxJob) (j : OutboxJob)
    → find_key j.idempotency_key xs ≡ none
    → HasUniqueKeys xs
    → HasUniqueKeys (xs ++ j ∷ [])
unfolding find_key
HasUniqueKeys-append [] j h u = (refl, tt)
HasUniqueKeys-append (x ∷ xs) j h u = ground (
  arith,
  HasUniqueKeys-append xs j,
  find_key-append x.idempotency_key xs j u.0,
  text_eq_iff x.idempotency_key j.idempotency_key,
  text_eq_iff j.idempotency_key x.idempotency_key,
)

pub IsSorted-append :
    (lo : ℕ) (xs : List OutboxJob) (j : OutboxJob)
    → lo ≤ j.id
    → IsSorted lo xs
    → All (λ x. x.id < j.id) xs
    → IsSorted lo (xs ++ j ∷ [])
IsSorted-append lo [] j h s b = (h, tt)
IsSorted-append lo (x ∷ xs) j h s b = (s.0, IsSorted-append (suc x.id) xs j b.0 s.1 b.1)

All-id-suc : (n : ℕ) (xs : List OutboxJob) → All (λ x. x.id < n) xs → All (λ x. x.id < n + 1) xs
All-id-suc n [] h = tt
All-id-suc n (x ∷ xs) h = (omega arith, All-id-suc n xs h.1)

module _ (job_type : Text) (payload : Json) (key : Text) where
  pub insert_job-IsTable :
      (t : Outbox)
      → IsTable t
      → find_key key t.jobs ≡ none
      → IsTable (record {
        jobs = t.jobs ++ new_job job_type payload key t.next_id ∷ [];
        next_id = t.next_id + 1;
      })
  insert_job-IsTable t v h = record {
    sorted =
        IsSorted-append 0 t.jobs (new_job job_type payload key t.next_id) (omega arith) v.sorted
          v.below;
    below =
        All-append (λ x. x.id < t.next_id + 1) t.jobs (new_job job_type payload key t.next_id ∷ [])
          (All-id-suc t.next_id t.jobs v.below) (omega arith, tt);
    unique = HasUniqueKeys-append t.jobs (new_job job_type payload key t.next_id) h v.unique;
  }

  module _ {E : Type 0} (integrity_error : E) where
    -- A key that is in the table: the existing job, and no change.
    pub enqueue_known :
        (refused : Bool) (others : Outbox → Outbox) (t : Outbox) {j : OutboxJob}
        → find_key key t.jobs ≡ some j
        → enqueue integrity_error refused others job_type payload key t ≡ (ok j, t)
    unfolding enqueue
    enqueue_known refused others t h = ground arith

    -- If no constraint but the unique key refuses the insert, then whatever other sessions commit
    -- between the check and the insert, `enqueue` does not raise, and returns the row that the
    -- table then has under its key.
    pub enqueue_returns_row :
        (others : Outbox → Outbox) (t : Outbox)
        → let (r, t') = enqueue integrity_error false others job_type payload key t in
          (j : OutboxJob) × (r ≡ ok j) × (find_key key t'.jobs ≡ some j)
    unfolding enqueue insert_job
    enqueue_returns_row others t = elim (Option-cases (find_key key t.jobs)) [
      | inr (j, e) ↦ (j, ground arith, ground arith)
      | inl e ↦ elim (Option-cases (find_key key (others t).jobs)) [
        | inr (j, e') ↦ (j, ground arith, ground arith)
        | inl e' ↦ (
          new_job job_type payload key (others t).next_id,
          ground arith,
          ground (
            arith,
            text_eq_refl key,
            find_key-append key (others t).jobs (new_job job_type payload key (others t).next_id),
          ),
        )
      ]
    ]

    -- The table after the call: as it was, as the others left it, or with the new row.
    pub enqueue_table :
        (refused : Bool) (others : Outbox → Outbox) (t : Outbox)
        → let t' = (enqueue integrity_error refused others job_type payload key t).1 in
          let u = others t in
          (t' ≡ t)
          ⊎ (t' ≡ u)
          ⊎ (find_key key u.jobs ≡ none)
            × (t' ≡ record {
              jobs = u.jobs ++ new_job job_type payload key u.next_id ∷ [];
              next_id = u.next_id + 1;
            })
    unfolding enqueue insert_job
    enqueue_table refused others t = ground arith

    -- where the check found no such key, what the others left is not lost
    pub enqueue_late :
        (refused : Bool) (t u : Outbox)
        → find_key key t.jobs ≡ none
        → let t' = (enqueue integrity_error refused (λ v. u) job_type payload key t).1 in
          (t' ≡ u)
          ⊎ (find_key key u.jobs ≡ none)
            × (t' ≡ record {
              jobs = u.jobs ++ new_job job_type payload key u.next_id ∷ [];
              next_id = u.next_id + 1;
            })
    unfolding enqueue insert_job
    enqueue_late refused t u e = ground arith

    -- On every outcome, `enqueue` keeps the ids increasing and below the next one and the keys
    -- unique, if the other sessions keep them so.
    pub enqueue-IsTable :
        (refused : Bool) (others : Outbox → Outbox) (t : Outbox)
        → ((u : Outbox) → IsTable u → IsTable (others u))
        → IsTable t
        → IsTable (enqueue integrity_error refused others job_type payload key t).1
    enqueue-IsTable refused others t keep v = elim (enqueue_table refused others t) [
      | inl same ↦ rw same v
      | inr (inl theirs) ↦ rw theirs (keep t v)
      | inr (inr (new, added)) ↦ rw added (insert_job-IsTable (others t) (keep t v) new)
    ]
