-- ===== src/Api/Listings.antt =====
-- app/api/v1/admin.py, categories.py, material_centers.py and sales_people.py: the listings.
use fembin.Base.{ℕ, Text, Option, none, List, map, Bool, true, false}
use fembin.Base.Int.{ℤ}
use fembin.Exec.{Result, ok, err}
use fembin.Json.{Json}
use fembin.Table.Order.{Collation}
use fembin.Db.{Category, MaterialCenter, Salesman, Session}
use fembin.Auth.{list_users}
use fembin.Auth.Tokens.{Jwt, JwtSettings}
use fembin.Outbox.Models.{OutboxJob, Outbox, OutboxStatus}
use fembin.Orders.Queue.{list_quotations}
use fembin.Catalog.Queries.{list_categories, list_material_centers, list_salesmen}
use fembin.Api.{HttpError}
use fembin.Api.Accounts.{UserOut, user_out, superadmin_of}

pub record OutboxJobOut : Type 0 where
  pub id : ℕ
  pub job_type : Text
  pub status : OutboxStatus
  pub attempts : ℕ
  pub payload : Json
  pub result : Option Json
  pub last_error : Option Text

abbrev pub job_out : OutboxJob → OutboxJobOut
job_out job = record {
  id = job.id;
  job_type = job.job_type;
  status = job.status;
  attempts = job.attempts;
  payload = job.payload;
  result = job.result;
  last_error = job.last_error;
}

pub record SalesPersonOut : Type 0 where
  pub busy_code : ℤ
  pub name : Text
  pub alias : Option Text
  pub is_active : Bool

abbrev pub sales_person_out : Salesman → SalesPersonOut
sales_person_out p = record {
  busy_code = p.busy_code;
  name = p.name;
  alias = p.alias;
  is_active = p.is_active;
}

pub record MaterialCenterOut : Type 0 where
  pub busy_code : ℤ
  pub name : Text
  pub alias : Option Text
  pub parent_group : Option Text
  pub is_active : Bool

abbrev pub material_center_out : MaterialCenter → MaterialCenterOut
material_center_out mc = record {
  busy_code = mc.busy_code;
  name = mc.name;
  alias = mc.alias;
  parent_group = mc.parent_group;
  is_active = mc.is_active;
}

module _ (collation : Collation) (jwt : Jwt) (settings : JwtSettings) where
  unfoldable pub list_all_users_route : ℕ → Text → Session → Result HttpError (List UserOut)
  list_all_users_route now credentials s = elim (superadmin_of jwt settings now credentials s.now) [
    | err e ↦ err e
    | ok caller ↦ ok (map user_out (list_users collation s))
  ]

  -- the quotations of every branch
  unfoldable pub list_all_quotations_route :
      ℕ → Text → Outbox → Session → Result HttpError (List OutboxJobOut)
  list_all_quotations_route now credentials t s =
      elim (superadmin_of jwt settings now credentials s.now) [
        | err e ↦ err e
        | ok caller ↦ ok (map job_out (list_quotations none t))
      ]

  unfoldable pub list_all_sales_people_route :
      ℕ → Text → Session → Result HttpError (List SalesPersonOut)
  list_all_sales_people_route now credentials s =
      elim (superadmin_of jwt settings now credentials s.now) [
        | err e ↦ err e
        | ok caller ↦ ok (map sales_person_out (list_salesmen collation false s))
      ]

unfoldable pub list_categories_route : Collation → Session → List Category
list_categories_route = list_categories

unfoldable pub list_material_centers_route : Collation → Session → List MaterialCenterOut
list_material_centers_route collation s =
    map material_center_out (list_material_centers collation s)

unfoldable pub list_sales_people_route : Collation → Session → List SalesPersonOut
list_sales_people_route collation s = map sales_person_out (list_salesmen collation true s)
