-- ===== src/Outbox/Rows.antt =====
-- The rows of the table by their ids: the order of the ids, and what an UPDATE of one row changes.
use fembin.Base.{
  ℕ, suc, ◌+◌, ◌<◌, ◌≤◌, ◌≡◌, ◌≢◌, refl, none, some, List, [], ◌∷◌, Bool, true, false, arith,
  if◌then◌else◌, length,
}
use fembin.Outbox.Models.{OutboxJob, is_queued, get_job, put_job}
use fembin.Outbox.Worker.{next_queued}

-- every id is at least `lo`, and the ids increase
abbrev pub IsSorted : ℕ → List OutboxJob → Type 0
IsSorted lo [] = Unit
IsSorted lo (x ∷ xs) = (lo ≤ x.id) × IsSorted (suc x.id) xs

pub IsSorted-le : {lo hi : ℕ} (xs : List OutboxJob) → lo ≤ hi → IsSorted hi xs → IsSorted lo xs
IsSorted-le [] h s = tt
IsSorted-le (x ∷ xs) h s = (omega arith, s.1)

pub get_job-below : (i lo : ℕ) (xs : List OutboxJob) → IsSorted lo xs → i < lo → get_job i xs ≡ none
unfolding get_job
get_job-below i lo [] s h = refl
get_job-below i lo (x ∷ xs) s h = ground (arith, get_job-below i (suc x.id) xs)

pub get_job-id : (i : ℕ) (xs : List OutboxJob) {j : OutboxJob} → get_job i xs ≡ some j → j.id ≡ i
unfolding get_job
get_job-id i [] h = ground arith
get_job-id i (x ∷ xs) {j} h = ground (arith, get_job-id i xs {j = j})

pub get_job-put_job_ne :
    (i : ℕ) (j : OutboxJob) (xs : List OutboxJob)
    → i ≢ j.id
    → get_job i (put_job j xs) ≡ get_job i xs
unfolding get_job put_job
get_job-put_job_ne i j [] h = refl
get_job-put_job_ne i j (x ∷ xs) h = ground (arith, get_job-put_job_ne i j xs h)

pub get_job-put_job_self :
    (j : OutboxJob) (xs : List OutboxJob)
    → get_job j.id xs ≢ none
    → get_job j.id (put_job j xs) ≡ some j
unfolding get_job put_job
get_job-put_job_self j [] h = ground arith
get_job-put_job_self j (x ∷ xs) h = ground (arith, get_job-put_job_self j xs)

pub put_job-IsSorted :
    (lo : ℕ) (j : OutboxJob) (xs : List OutboxJob) → IsSorted lo xs → IsSorted lo (put_job j xs)
unfolding put_job
put_job-IsSorted lo j [] s = tt
put_job-IsSorted lo j (x ∷ xs) s = ground (arith, put_job-IsSorted (suc x.id) j xs s.1)

pub length-put_job : (j : OutboxJob) (xs : List OutboxJob) → length (put_job j xs) ≡ length xs
unfolding put_job
length-put_job j [] = refl
length-put_job j (x ∷ xs) = ground (arith, length-put_job j xs)

-- how many rows are queued
abbrev pub count_queued : List OutboxJob → ℕ
count_queued [] = 0
count_queued (x ∷ xs) = (if is_queued x.status then 1 else 0) + count_queued xs

-- no lock is held by another worker
abbrev pub unlocked : ℕ → Bool
unlocked i = false

module _ (locked : ℕ → Bool) where
  -- The claimed row is in the table, queued and not locked.
  pub next_queued-get_job :
      (lo : ℕ) (xs : List OutboxJob) {j : OutboxJob}
      → IsSorted lo xs
      → next_queued locked xs ≡ some j
      → (get_job j.id xs ≡ some j)
        × (is_queued j.status ≡ true)
        × (locked j.id ≡ false)
        × (lo ≤ j.id)
  unfolding next_queued get_job
  next_queued-get_job lo [] s h = ground arith
  next_queued-get_job lo (x ∷ xs) {j} s h =
      ground (arith, next_queued-get_job (suc x.id) xs {j = j} s.1)

  -- It is the oldest: every queued row that no one has locked has at least its id.
  pub next_queued_oldest :
      (lo i : ℕ) (xs : List OutboxJob) {j k : OutboxJob}
      → IsSorted lo xs
      → next_queued locked xs ≡ some j
      → get_job i xs ≡ some k
      → is_queued k.status ≡ true
      → locked i ≡ false
      → j.id ≤ i
  unfolding next_queued get_job
  next_queued_oldest lo i [] s h g q u = ground arith
  next_queued_oldest lo i (x ∷ xs) {j} {k} s h g q u = ground (
    arith,
    next_queued_oldest (suc x.id) i xs {j = j} {k = k} s.1,
    next_queued-get_job (suc x.id) xs {j = j} s.1,
    get_job-id i (x ∷ xs) {j = k} g,
    get_job-below i (suc x.id) xs s.1,
  )

  -- Where nothing is claimed, no queued row is free.
  pub next_queued-none :
      (i : ℕ) (xs : List OutboxJob) {k : OutboxJob}
      → next_queued locked xs ≡ none
      → get_job i xs ≡ some k
      → is_queued k.status ≡ true
      → locked i ≡ true
  unfolding next_queued get_job
  next_queued-none i [] h g q = ground arith
  next_queued-none i (x ∷ xs) {k} h g q = ground (arith, next_queued-none i xs {k = k})

pub count_queued-none : (xs : List OutboxJob) → next_queued unlocked xs ≡ none → count_queued xs ≡ 0
unfolding next_queued
count_queued-none [] h = refl
count_queued-none (x ∷ xs) h = ground (arith, count_queued-none xs)

-- A row that stops being queued lowers the count by one.
pub count_queued-put_job :
    (xs : List OutboxJob) (old new : OutboxJob)
    → get_job new.id xs ≡ some old
    → count_queued (put_job new xs) + (if is_queued old.status then 1 else 0)
      ≡ count_queued xs + (if is_queued new.status then 1 else 0)
unfolding get_job put_job
count_queued-put_job [] old new h = ground arith
count_queued-put_job (x ∷ xs) old new h = ground (arith, count_queued-put_job xs old new)
