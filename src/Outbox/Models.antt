-- ===== src/Outbox/Models.antt =====
-- app/outbox/models.py: the job row and its statuses. `created_at` and `updated_at` are set by the
-- database and never read by the program.
use fembin.Base.{ℕ, Text, Option, none, some, List, [], ◌∷◌, ◌==◌, if◌then◌else◌, Bool, true, false}
use fembin.Json.{Json}

pub data OutboxStatus : Type 0 where
  queued running done failed : OutboxStatus

pub record OutboxJob : Type 0 where
  pub id : ℕ
  pub job_type : Text
  pub payload : Json
  pub status : OutboxStatus
  pub attempts : ℕ
  pub idempotency_key : Text
  pub result : Option Json
  pub last_error : Option Text

-- the table, with the next value of its AUTO_INCREMENT key
pub record Outbox : Type 0 where
  pub jobs : List OutboxJob
  pub next_id : ℕ

abbrev pub is_queued : OutboxStatus → Bool
is_queued queued = true
is_queued _ = false

-- the row that an id names
unfoldable pub get_job : ℕ → List OutboxJob → Option OutboxJob
get_job i [] = none
get_job i (x ∷ xs) = if x.id == i then some x else get_job i xs

-- the UPDATE that a commit sends for a changed row
unfoldable pub put_job : OutboxJob → List OutboxJob → List OutboxJob
put_job j [] = []
put_job j (x ∷ xs) = if x.id == j.id then j ∷ xs else x ∷ put_job j xs
