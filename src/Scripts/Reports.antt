-- ===== src/Scripts/Reports.antt =====
-- scripts/list_quotations.py and list_products.py: what they count and log.
pub mod Counted
use fembin.Base.{
  ℕ, ◌+◌, ◌-◌, Text, codes, Option, none, some, List, [], ◌∷◌, Bool, true, false, map, length,
  if◌then◌else◌,
}
use fembin.Base.Int.{ℤ, ltb_ℤ}
use fembin.Decimal.{Decimal}
use fembin.Json.{Json, get}
use fembin.Db.{Product, Session}
use fembin.Outbox.Models.{OutboxJob, Outbox, OutboxStatus, queued, running, done, failed}
use fembin.Orders.Queue.{list_quotations}

abbrev pub status_eq : OutboxStatus → OutboxStatus → Bool
status_eq queued queued = true
status_eq running running = true
status_eq done done = true
status_eq failed failed = true
status_eq _ _ = false

abbrev pub ByStatus : Type 0
ByStatus = List (OutboxStatus × ℕ)

-- by_status.get(status, 0)
unfoldable pub get_count : OutboxStatus → ByStatus → ℕ
get_count status [] = 0
get_count status ((s, n) ∷ rest) = if status_eq s status then n else get_count status rest

-- by_status[status] = n
unfoldable pub set_count : OutboxStatus → ℕ → ByStatus → ByStatus
set_count status n [] = (status, n) ∷ []
set_count status n ((s, m) ∷ rest) =
    if status_eq s status then (s, n) ∷ rest else (s, m) ∷ set_count status n rest

unfoldable pub count_statuses : ByStatus → List OutboxJob → ByStatus
unfolding get_count set_count
count_statuses counts [] = counts
count_statuses counts (job ∷ jobs) =
    count_statuses (set_count job.status (get_count job.status counts + 1) counts) jobs

-- one line of the listing; a missing result is an empty dict
pub record QuotationLine : Type 0 where
  pub id : ℕ
  pub status : OutboxStatus
  pub attempts : ℕ
  pub vch_no : Option Json
  pub vch_code : Option Json
  pub last_error : Option Text

abbrev pub field_of : Text → Option Json → Option Json
field_of k none = none
field_of k (some result) = get k result

abbrev pub line_of : OutboxJob → QuotationLine
line_of job = record {
  id = job.id;
  status = job.status;
  attempts = job.attempts;
  vch_no = field_of (codes "vch_no") job.result;
  vch_code = field_of (codes "vch_code") job.result;
  last_error = job.last_error;
}

pub record QuotationReport : Type 0 where
  pub lines : List QuotationLine
  pub total : ℕ
  pub by_status : ByStatus

unfoldable pub report_quotations : Outbox → QuotationReport
report_quotations t =
    let jobs = list_quotations none t in
    record { lines = map line_of jobs; total = length jobs; by_status = count_statuses [] jobs }

put_by_code : Product → List Product → List Product
put_by_code p [] = p ∷ []
put_by_code p (q ∷ qs) = if ltb_ℤ q.busy_code p.busy_code then q ∷ put_by_code p qs else p ∷ q ∷ qs

-- session.query(Product).order_by(Product.busy_code)
unfoldable pub by_code : List Product → List Product
unfolding put_by_code
by_code [] = []
by_code (p ∷ ps) = put_by_code p (by_code ps)

unfoldable pub count_active : List Product → ℕ
count_active [] = 0
count_active (p ∷ ps) = (if p.is_active then 1 else 0) + count_active ps

pub record ProductReport : Type 0 where
  pub products : List Product
  pub total : ℕ
  pub active : ℕ
  pub inactive : ℕ

unfoldable pub report_products : Session → ProductReport
report_products s =
    let products = by_code s.now.products in
    record {
      products = products;
      total = length products;
      active = count_active products;
      inactive = length products - count_active products;
    }
