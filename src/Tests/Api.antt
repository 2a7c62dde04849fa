-- ===== src/Tests/Api.antt =====
-- The routes for a caller of one branch, on a table with another job.
use fembin.Base.{◌≡◌, ◌↔◌, ◌⊎◌, refl, codes, text_eq, none, some, [], ◌∷◌, ◌++◌, true, false}
use fembin.Base.Int.{pos, eqb_ℤ}
use fembin.Exec.{ok, err}
use fembin.Table.{get_row}
use fembin.Db.{Db, User, MaterialCenter, Salesman}
use fembin.Outbox.Models.{OutboxJob, Outbox, get_job}
use fembin.Outbox.Queue.{find_key, insert_job, enqueue, new_job}
use fembin.Orders.Queue.{enqueue_sale_quotation, quotation_payload, job_type, is_of_center}
use fembin.Orders.Queue.Listing.{Has}
use fembin.Api.{
  HttpError, http, get_outbox_job_route, branch_of, seller_of, QuotationCreateRequest, request_of,
  create_sale_quotation_route, list_sale_quotations_route,
}
use fembin.Api.Scope.{get_outbox_job_route_scoped, create_sale_quotation_route_listed}
use fembin.Tests.Data.{db, item, origin, two_jobs}

abbrev ann : User
ann = record {
  id = 4;
  username = codes "ann";
  password_hash = [];
  full_name = codes "Ann";
  material_center_code = pos 201;
  is_active = true;
  is_superadmin = false;
}

abbrev shop : MaterialCenter
shop = record {
  busy_code = pos 201;
  name = codes "Shop";
  alias = none;
  parent_group = none;
  is_active = true;
  vch_series_name = some (codes "Main");
  vch_no_prefix = some (codes "WH");
  vch_series_resolved_at = some 100;
}

abbrev bob : Salesman
bob = record {
  busy_code = pos 12;
  name = codes "Bob";
  alias = none;
  parent_group = none;
  is_active = true;
}

abbrev stocked : Db
stocked = record db { material_centers = shop ∷ []; salesmen = bob ∷ [] }

abbrev body : QuotationCreateRequest
body = record {
  idempotency_key = codes "q-1";
  date = codes "01-04-2026";
  sale_type_name = codes "Local";
  customer_name = codes "Walk-in";
  sales_person_id = pos 12;
  items = item ∷ [];
}

abbrev made : OutboxJob
made =
    new_job job_type (quotation_payload (request_of body (shop, codes "Main", codes "WH")) origin)
      (codes "q-1") 6

abbrev after : Outbox
after = record { jobs = two_jobs.jobs ++ made ∷ []; next_id = 7 }

created : create_sale_quotation_route false (λ u. u) body stocked ann two_jobs ≡ (ok made, after)
unfolding create_sale_quotation_route branch_of seller_of get_row enqueue_sale_quotation enqueue
    insert_job find_key text_eq codes
created = refl

unused : find_key (codes "q-1") two_jobs.jobs ≡ none
unfolding find_key text_eq codes
unused = refl

create_sale_quotation_route_listed_example :
    Has made (list_sale_quotations_route after ann) ↔ (eqb_ℤ (pos 201) (pos 201) ≡ true)
create_sale_quotation_route_listed_example =
    create_sale_quotation_route_listed false (λ u. u) body stocked ann two_jobs after made unused
      unused created ann

get_outbox_job_route_scoped_example :
    ((job : OutboxJob)
      → (get_outbox_job_route 6 after ann ≡ ok job) ↔ (
          (get_job 6 after.jobs ≡ some job)
          × ((false ≡ true) ⊎ (is_of_center (pos 201) job ≡ true))))
    × ((e : HttpError) → get_outbox_job_route 6 after ann ≡ err e → e ≡ http 404)
get_outbox_job_route_scoped_example = get_outbox_job_route_scoped 6 after ann
