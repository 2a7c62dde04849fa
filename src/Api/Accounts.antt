-- ===== src/Api/Accounts.antt =====
-- app/api/v1/auth.py: accounts and logins, and the routes' dependency on a superadmin. Whether the
-- rate limiter lets a login through is a parameter.
use fembin.Base.{ℕ, Text, codes, none, some, Bool, true, false}
use fembin.Base.Int.{ℤ}
use fembin.Exec.{Exec, Result, ok, err}
use fembin.Errors.{Exn, duplicate_username, unknown_material_center, invalid_credentials}
use fembin.Table.{get_row}
use fembin.Db.{Db, User, Session}
use fembin.Auth.{create_user, authenticate_user}
use fembin.Auth.Tokens.{Jwt, JwtSettings, create_access_token}
use fembin.Api.{HttpError, http, raised, get_current_user, get_current_superadmin}

pub record UserCreateRequest : Type 0 where
  pub username : Text
  pub password : Text
  pub full_name : Text
  pub material_center_code : ℤ

-- the columns that `UserOut` shows
pub record UserOut : Type 0 where
  pub id : ℕ
  pub username : Text
  pub full_name : Text
  pub material_center_code : ℤ
  pub is_active : Bool
  pub is_superadmin : Bool

abbrev pub user_out : User → UserOut
user_out user = record {
  id = user.id;
  username = user.username;
  full_name = user.full_name;
  material_center_code = user.material_center_code;
  is_active = user.is_active;
  is_superadmin = user.is_superadmin;
}

unfoldable pub created : Result Exn User → Result HttpError UserOut
created (ok user) = ok (user_out user)
created (err duplicate_username) = err (http 409)
created (err unknown_material_center) = err (http 422)
created (err e) = err (raised e)

unfoldable pub logged_in : Result Exn User → Result HttpError User
logged_in (ok user) = ok user
logged_in (err invalid_credentials) = err (http 401)
logged_in (err e) = err (raised e)

pub record TokenOut : Type 0 where
  pub access_token : Text
  pub token_type : Text

pub record CurrentUserOut : Type 0 where
  pub id : ℕ
  pub username : Text
  pub full_name : Text
  pub material_center_code : ℤ
  pub material_center_name : Text
  pub is_superadmin : Bool

module _ (jwt : Jwt) (settings : JwtSettings) where
  -- the dependencies of a route for superadmins, from the token of the request
  unfoldable pub superadmin_of : ℕ → Text → Db → Result HttpError User
  superadmin_of now credentials db = elim (get_current_user jwt settings now credentials db) [
    | err e ↦ err e
    | ok user ↦ get_current_superadmin user
  ]

  -- a route of the session that only a superadmin reaches
  unfoldable pub for_superadmin :
      {S A : Type 0} → (S → Db) → ℕ → Text → Exec HttpError S A → Exec HttpError S A
  for_superadmin db_of now credentials route s = elim (superadmin_of now credentials (db_of s)) [
    | err e ↦ (err e, s)
    | ok user ↦ route s
  ]

  unfoldable pub create_user_route :
      (Text → Text) → UserCreateRequest → ℕ → Text → Exec HttpError Session UserOut
  unfolding created
  create_user_route hash_password body now credentials =
      for_superadmin (λ s. s.now) now credentials
        (λ s.
          let (r, t) =
            create_user hash_password
              (record {
                username = body.username;
                password = body.password;
                full_name = body.full_name;
                material_center_code = body.material_center_code;
                is_superadmin = false;
              })
              s in
          (created r, t))

  unfoldable pub login_route :
      (Text → Text → Bool) → Bool → Text → Text → ℕ → Session → Result HttpError TokenOut
  unfolding logged_in
  login_route verify_password within_limit username password now s = elim within_limit [
    | false ↦ err (http 429)
    | true ↦ elim (logged_in (authenticate_user verify_password username password s)) [
      | err e ↦ err e
      | ok user ↦ ok (record {
        access_token = create_access_token jwt settings now user;
        token_type = codes "bearer";
      })
    ]
  ]

  unfoldable pub current_user_route : ℕ → Text → Db → Result HttpError CurrentUserOut
  current_user_route now credentials db = elim (get_current_user jwt settings now credentials db) [
    | err e ↦ err e
    | ok user ↦ ok (record {
      id = user.id;
      username = user.username;
      full_name = user.full_name;
      material_center_code = user.material_center_code;
      material_center_name =
          elim (get_row (λ c. c.busy_code) user.material_center_code db.material_centers) [
            | none ↦ codes "(unknown)"
            | some center ↦ center.name
          ];
      is_superadmin = user.is_superadmin;
    })
  ]
