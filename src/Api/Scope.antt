-- ===== src/Api/Scope.antt =====
-- What a caller sees: jobs of the own branch, unless a superadmin asks.
use fembin.Base.{
  ℕ, ◌≡◌, ◌↔◌, ◌⊎◌, refl, Text, codes, text_eq, text_eq_refl, none, some, [], ◌∷◌, ◌++◌, Bool, true,
  false, arith, Option-cases, inl, inr,
}
use fembin.Base.Int.{ℤ, eqb_ℤ}
use fembin.Exec.{ok, err, Result-cases}
use fembin.Json.{Json, get, get_field, set_field}
use fembin.Db.{Db, User}
use fembin.Outbox.Models.{OutboxJob, Outbox, get_job}
use fembin.Outbox.Queue.{find_key, new_job, insert_job, enqueue}
use fembin.Orders.Items.{QuotationRequest}
use fembin.Orders.Payload.{request_fields}
use fembin.Orders.Queue.{
  job_type, Origin, quotation_payload, enqueue_sale_quotation, is_of_center, is_quotation,
}
use fembin.Orders.Queue.Listing.{Has, Has-append, list_quotations_exact}
use fembin.Api.{
  HttpError, http, may_see, get_outbox_job_route, branch_of, seller_of, QuotationCreateRequest,
  request_of, create_sale_quotation_route, list_sale_quotations_route,
}

-- A job that exists is shown exactly to the superadmins and to the callers of its own branch; for
-- anyone else the answer is the one that a missing job gets.
pub get_outbox_job_route_scoped :
    (job_id : ℕ) (t : Outbox) (user : User)
    → ((job : OutboxJob)
        → (get_outbox_job_route job_id t user ≡ ok job) ↔ (
            (get_job job_id t.jobs ≡ some job)
            × ((user.is_superadmin ≡ true) ⊎ (is_of_center user.material_center_code job ≡ true))))
      × ((e : HttpError) → get_outbox_job_route job_id t user ≡ err e → e ≡ http 404)
unfolding get_outbox_job_route may_see
get_outbox_job_route_scoped job_id t user = elim (Option-cases (get_job job_id t.jobs)) [
  | inl missing ↦ (λ job. ground (arith, missing), λ e h. ground (arith, missing))
  | inr (found, there) ↦ (λ job. ground (arith, there), λ e h. ground (arith, there))
]

-- the branch that a payload carries
is_of_center-quotation_payload :
    (code : ℤ) (request : QuotationRequest) (o : Origin) (key : Text) (i : ℕ)
    → is_of_center code (new_job job_type (quotation_payload request o) key i)
      ≡ eqb_ℤ o.material_center_code code
unfolding is_of_center get quotation_payload request_fields set_field get_field codes text_eq
is_of_center-quotation_payload code request o key i = refl

-- what `enqueue` returns for a key that nobody has used
enqueue_fresh :
    (refused : Bool) (others : Outbox → Outbox) (request : QuotationRequest) (key : Text)
    (o : Origin) (t t' : Outbox) (j : OutboxJob)
    → find_key key t.jobs ≡ none
    → find_key key (others t).jobs ≡ none
    → enqueue_sale_quotation refused others request key o t ≡ (ok j, t')
    → (j ≡ new_job job_type (quotation_payload request o) key (others t).next_id)
      × (t'.jobs ≡ (others t).jobs ++ j ∷ [])
unfolding enqueue_sale_quotation enqueue insert_job
enqueue_fresh true others request key o t t' j f g e = absurd (ground arith)
enqueue_fresh false others request key o t t' j f g e = ground arith

is_quotation-new_job :
    (payload : Json) (key : Text) (i : ℕ) → is_quotation (new_job job_type payload key i) ≡ true
is_quotation-new_job payload key i = text_eq_refl job_type

-- the job of a caller's request, and the table with it
create_ok :
    (refused : Bool) (others : Outbox → Outbox) (body : QuotationCreateRequest) (db : Db)
    (user : User) (t t' : Outbox) (job : OutboxJob)
    → find_key body.idempotency_key t.jobs ≡ none
    → find_key body.idempotency_key (others t).jobs ≡ none
    → create_sale_quotation_route refused others body db user t ≡ (ok job, t')
    → (is_quotation job ≡ true)
      × ((code : ℤ) → is_of_center code job ≡ eqb_ℤ user.material_center_code code)
      × (t'.jobs ≡ (others t).jobs ++ job ∷ [])
unfolding create_sale_quotation_route
create_ok refused others body db user t t' job f g e = elim (Result-cases (branch_of user db)) [
  | inr (x, no_branch) ↦ absurd (ground arith)
  | inl (branch, has_branch) ↦ elim (Result-cases (seller_of body.sales_person_id db)) [
    | inr (x, no_seller) ↦ absurd (ground arith)
    | inl (seller, has_seller) ↦
        let o : Origin = record {
          created_by_user_id = user.id;
          created_by_username = user.username;
          material_center_code = user.material_center_code;
          sales_person_id = seller.busy_code;
          sales_person_name = seller.name;
        } in
        let request = request_of body branch in
        let (made, stored) =
          enqueue_fresh refused others request body.idempotency_key o t t' job f g (ground arith) in
        (
          rw made (
              is_quotation-new_job (quotation_payload request o) body.idempotency_key
                (others t).next_id),
          λ code. rw made (
              is_of_center-quotation_payload code request o body.idempotency_key
                (others t).next_id),
          stored,
        )
  ]
]

-- A quotation that a caller creates under a key that is not in use shows up in the listing of the
-- caller's branch, and in that of no other branch.
pub create_sale_quotation_route_listed :
    (refused : Bool) (others : Outbox → Outbox) (body : QuotationCreateRequest) (db : Db)
    (user : User) (t t' : Outbox) (job : OutboxJob)
    → find_key body.idempotency_key t.jobs ≡ none
    → find_key body.idempotency_key (others t).jobs ≡ none
    → create_sale_quotation_route refused others body db user t ≡ (ok job, t')
    → (reader : User)
    → Has job (list_sale_quotations_route t' reader)
      ↔ (eqb_ℤ user.material_center_code reader.material_center_code ≡ true)
unfolding list_sale_quotations_route
create_sale_quotation_route_listed refused others body db user t t' job f g e reader =
    let (quoted, center, stored) = create_ok refused others body db user t t' job f g e in
    ground (
      arith,
      list_quotations_exact reader.material_center_code t' job,
      Has-append job job (others t).jobs,
      center reader.material_center_code,
      quoted,
      stored,
    )
