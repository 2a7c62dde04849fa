-- ===== src/Outbox/Loop.antt =====
-- app/outbox/worker.py: `outbox_worker_loop`, the periodic drain. The stop event is set during the
-- last of the waits that are listed.
pub mod Advance
pub mod Drains
use fembin.Base.{ℕ, ◌+◌, Text, Option, none, some, List, [], ◌∷◌, Bool, true, false}
use fembin.Outbox.Models.{Outbox}
use fembin.Outbox.Worker.{Handler, drain_outbox}
use fembin.Outbox.Rows.{count_queued}

-- One turn of the loop: whether the drain gets its connections or raises at once, the rows that
-- other workers hold locked while it runs, and what other sessions commit until the next turn.
pub record Turn : Type 0 where
  pub connects : Bool
  pub locked : ℕ → Bool
  pub others : Outbox → Outbox

module _ {E S : Type 0} (type_name str_of : E → Text) (handlers : List (Text × Handler E S)) where
  -- with more fuel than rows are queued; an exception of the drain is logged
  unfoldable pub drain_or_log : Turn → Outbox × S → Option (Outbox × S)
  drain_or_log turn (t, s) = elim turn.connects [
    | false ↦ some (t, s)
    | true ↦
        elim (drain_outbox type_name str_of (count_queued t.jobs + 1) turn.locked handlers 0
          (t, s)) [ none ↦ none | some (processed, st) ↦ some st ]
  ]

  unfoldable pub outbox_worker_loop : List Turn → Outbox × S → Option (Outbox × S)
  outbox_worker_loop [] st = some st
  outbox_worker_loop (turn ∷ turns) st = elim (drain_or_log turn st) [
    | none ↦ none
    | some (t, s) ↦ outbox_worker_loop turns (turn.others t, s)
  ]
