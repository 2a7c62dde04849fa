-- ===== src/Api.antt =====
-- app/api/v1: the routes that decide, after their bodies were validated: quotations.py, outbox.py,
-- and the dependencies of deps.py. An HTTPException is its status code.
pub mod Scope
pub mod Accounts
pub mod Sessions
pub mod Products
pub mod Sync
pub mod Listings
pub mod Answers
use fembin.Base.{
  ℕ, Text, Option, none, some, List, [], ◌∷◌, Bool, true, false, not, ◌&&◌, ◌||◌, ◌==◌,
  if◌then◌else◌,
}
use fembin.Base.Int.{ℤ, pos, negsuc}
use fembin.Exec.{Exec, Result, ok, err}
use fembin.Errors.{Exn}
use fembin.Table.{get_row}
use fembin.Auth.Tokens.{Jwt, JwtSettings, decode_access_token}
use fembin.Db.{Db, User, MaterialCenter, Salesman}
use fembin.Outbox.Models.{OutboxJob, Outbox, get_job}
use fembin.Orders.Items.{QuotationItem, QuotationRequest}
use fembin.Orders.Queue.{enqueue_sale_quotation, list_quotations, is_of_center}

pub data HttpError : Type 0 where
  http : ℕ → HttpError
  raised : Exn → HttpError

-- db.get(User, user_id)
unfoldable pub get_user : ℕ → List User → Option User
get_user i [] = none
get_user i (u ∷ us) = if u.id == i then some u else get_user i us

-- a key below 0 names no row
unfoldable pub get_user_by : ℤ → List User → Option User
get_user_by (pos i) us = get_user i us
get_user_by (negsuc n) us = none

unfoldable pub active_user : Option User → Result HttpError User
active_user none = err (http 401)
active_user (some user) = elim user.is_active [ true ↦ ok user | false ↦ err (http 401) ]

-- `credentials` is the bearer token of the request
unfoldable pub get_current_user : Jwt → JwtSettings → ℕ → Text → Db → Result HttpError User
get_current_user jwt settings now credentials db =
    elim (decode_access_token jwt settings now credentials) [
      | err e ↦ err (http 401)
      | ok payload ↦ active_user (get_user_by payload.user_id db.users)
    ]

unfoldable pub get_current_superadmin : User → Result HttpError User
get_current_superadmin user = elim user.is_superadmin [ true ↦ ok user | false ↦ err (http 403) ]

unfoldable pub may_see : User → OutboxJob → Bool
may_see user job = user.is_superadmin || is_of_center user.material_center_code job

unfoldable pub get_outbox_job_route : ℕ → Outbox → User → Result HttpError OutboxJob
unfolding may_see
get_outbox_job_route job_id t user = elim (get_job job_id t.jobs) [
  | none ↦ err (http 404)
  | some job ↦ elim (may_see user job) [ true ↦ ok job | false ↦ err (http 404) ]
]

unfoldable pub list_sale_quotations_route : Outbox → User → List OutboxJob
list_sale_quotations_route t user = list_quotations (some user.material_center_code) t

pub record QuotationCreateRequest : Type 0 where
  pub idempotency_key : Text
  pub date : Text
  pub sale_type_name : Text
  pub customer_name : Text
  pub sales_person_id : ℤ
  pub items : List QuotationItem

-- the series of the caller's own branch
unfoldable pub branch_of : User → Db → Result HttpError (MaterialCenter × Text × Text)
branch_of user db =
    elim (get_row (λ c. c.busy_code) user.material_center_code db.material_centers) [
      | none ↦ err (http 409)
      | some center ↦ elim center.vch_series_name [
        | none ↦ err (http 409)
        | some name ↦ elim center.vch_no_prefix [
          | none ↦ err (http 409)
          | some prefix ↦ ok (center, name, prefix)
        ]
      ]
    ]

unfoldable pub seller_of : ℤ → Db → Result HttpError Salesman
seller_of code db = elim (get_row (λ x. x.busy_code) code db.salesmen) [
  | none ↦ err (http 422)
  | some seller ↦ elim seller.is_active [ true ↦ ok seller | false ↦ err (http 422) ]
]

abbrev pub request_of : QuotationCreateRequest → MaterialCenter × Text × Text → QuotationRequest
request_of body (center, name, prefix) = record {
  vch_series_name = name;
  vch_no_prefix = prefix;
  date = body.date;
  sale_type_name = body.sale_type_name;
  customer_name = body.customer_name;
  material_center_name = center.name;
  items = body.items;
}

unfoldable pub answered : Result Exn OutboxJob × Outbox → Result HttpError OutboxJob × Outbox
answered (ok job, t) = (ok job, t)
answered (err e, t) = (err (raised e), t)

unfoldable pub create_sale_quotation_route :
    (refused : Bool) (others : Outbox → Outbox)
    → QuotationCreateRequest
    → Db
    → User
    → Exec HttpError Outbox OutboxJob
unfolding answered
create_sale_quotation_route refused others body db user t = elim (branch_of user db) [
  | err e ↦ (err e, t)
  | ok branch ↦ elim (seller_of body.sales_person_id db) [
    | err e ↦ (err e, t)
    | ok seller ↦ answered (
        enqueue_sale_quotation refused others (request_of body branch) body.idempotency_key
          (record {
            created_by_user_id = user.id;
            created_by_username = user.username;
            material_center_code = user.material_center_code;
            sales_person_id = seller.busy_code;
            sales_person_name = seller.name;
          })
          t)
  ]
]
