-- ===== src/Orders/Queue.antt =====
-- app/domain/orders/quotations.py: `enqueue_sale_quotation` and `list_quotations`.
pub mod Listing
use fembin.Base.{
  ℕ, Text, codes, text_eq, Option, none, some, List, [], ◌∷◌, ◌++◌, Bool, true, false,
  if◌then◌else◌,
}
use fembin.Base.Int.{ℤ, pos, eqb_ℤ}
use fembin.Exec.{Exec}
use fembin.Errors.{Exn, integrity_error}
use fembin.Json.{Json, num, str, obj, Fields, set_field, get}
use fembin.Outbox.Models.{OutboxJob, Outbox}
use fembin.Outbox.Queue.{enqueue}
use fembin.Orders.Items.{QuotationRequest}
use fembin.Orders.Payload.{request_fields}

abbrev pub job_type : Text
job_type = codes "add_sale_quotation"

-- who asks, for which branch, and who sold
pub record Origin : Type 0 where
  pub created_by_user_id : ℕ
  pub created_by_username : Text
  pub material_center_code : ℤ
  pub sales_person_id : ℤ
  pub sales_person_name : Text

unfoldable pub quotation_payload : QuotationRequest → Origin → Json
quotation_payload request o = obj (
    set_field (codes "sales_person_name") (str o.sales_person_name) (
      set_field (codes "sales_person_id") (num o.sales_person_id) (
        set_field (codes "material_center_code") (num o.material_center_code) (
          set_field (codes "created_by_username") (str o.created_by_username) (
            set_field (codes "created_by_user_id") (num (pos o.created_by_user_id))
              (request_fields request))))))

unfoldable pub enqueue_sale_quotation :
    (refused : Bool) (others : Outbox → Outbox) (request : QuotationRequest) (key : Text)
    (o : Origin)
    → Exec Exn Outbox OutboxJob
enqueue_sale_quotation refused others request key o =
    enqueue integrity_error refused others job_type (quotation_payload request o) key

-- ORDER BY id DESC
unfoldable pub newest_first : List OutboxJob → List OutboxJob
newest_first [] = []
newest_first (x ∷ xs) = newest_first xs ++ x ∷ []

unfoldable pub keep_jobs : (OutboxJob → Bool) → List OutboxJob → List OutboxJob
keep_jobs test [] = []
keep_jobs test (x ∷ xs) = let rest = keep_jobs test xs in if test x then x ∷ rest else rest

-- job.payload.get("material_center_code") == code
unfoldable pub is_of_center : ℤ → OutboxJob → Bool
unfolding get
is_of_center code job = elim (get (codes "material_center_code") job.payload) [
  | some (num c) ↦ eqb_ℤ c code
  | _ ↦ false
]

abbrev pub is_quotation : OutboxJob → Bool
is_quotation job = text_eq job.job_type job_type

unfoldable pub list_quotations : Option ℤ → Outbox → List OutboxJob
unfolding newest_first keep_jobs
list_quotations none t = newest_first (keep_jobs is_quotation t.jobs)
list_quotations (some code) t =
    keep_jobs (is_of_center code) (newest_first (keep_jobs is_quotation t.jobs))
