-- ===== src/Orders/Queue/Listing.antt =====
-- What a listing shows: of one branch, exactly its quotations.
use fembin.Base.{◌≡◌, ◌↔◌, ◌⊎◌, some, List, [], ◌∷◌, ◌++◌, Bool, true, arith}
use fembin.Base.Int.{ℤ}
use fembin.Outbox.Models.{OutboxJob, Outbox}
use fembin.Orders.Queue.{newest_first, keep_jobs, is_of_center, is_quotation, list_quotations}

-- the job stands in the list
abbrev pub Has : OutboxJob → List OutboxJob → Type 0
Has j [] = ⊥
Has j (x ∷ xs) = (x ≡ j) ⊎ Has j xs

pub Has-append :
    (j x : OutboxJob) (xs : List OutboxJob) → Has j (xs ++ x ∷ []) ↔ (Has j xs ⊎ (x ≡ j))
Has-append j x [] = ground arith
Has-append j x (y ∷ xs) = ground (arith, Has-append j x xs)

Has-newest_first : (j : OutboxJob) (xs : List OutboxJob) → Has j (newest_first xs) ↔ Has j xs
unfolding newest_first
Has-newest_first j [] = (λ h. h, λ h. h)
Has-newest_first j (x ∷ xs) =
    ground (arith, Has-append j x (newest_first xs), Has-newest_first j xs)

Has-keep_jobs :
    (test : OutboxJob → Bool) (j : OutboxJob) (xs : List OutboxJob)
    → Has j (keep_jobs test xs) ↔ (Has j xs × (test j ≡ true))
unfolding keep_jobs
Has-keep_jobs test j [] = ground arith
Has-keep_jobs test j (x ∷ xs) = ground (arith, Has-keep_jobs test j xs)

-- The listing of a branch holds exactly the table's quotations that were made for that branch.
pub list_quotations_exact :
    (code : ℤ) (t : Outbox) (j : OutboxJob)
    → Has j (list_quotations (some code) t)
      ↔ (Has j t.jobs × (is_quotation j ≡ true) × (is_of_center code j ≡ true))
unfolding list_quotations
list_quotations_exact code t j = ground (
  arith,
  Has-keep_jobs (is_of_center code) j (newest_first (keep_jobs is_quotation t.jobs)),
  Has-newest_first j (keep_jobs is_quotation t.jobs),
  Has-keep_jobs is_quotation j t.jobs,
)
