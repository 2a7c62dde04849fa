-- ===== src/Api/Sessions.antt =====
-- From a login (app/api/v1/auth.py) to the caller of a later request (app/api/v1/deps.py).
use fembin.Base.{
  ℕ, ◌+◌, ◌*◌, ◌<◌, ◌≤◌, ◌≡◌, Text, text_eq, codes, none, some, Bool, true, false, arith,
}
use fembin.Base.Int.{pos}
use fembin.Exec.{ok, err, Result-cases}
use fembin.Base.{inl, inr}
use fembin.Json.{num, str, get_field}
use fembin.Strings.Ints.{parse_int-print_ℕ}
use fembin.Db.{Db, User, Session}
use fembin.Auth.{authenticate_user}
use fembin.Auth.Tokens.{
  Jwt, JwtSettings, payload_of, as_int, create_access_token, decode_access_token,
}
use fembin.Api.{http, get_user, get_user_by, active_user, get_current_user}
use fembin.Api.Accounts.{TokenOut, logged_in, login_route}

module _ (jwt : Jwt) (settings : JwtSettings) where
  decode_access_token-create_access_token :
      (user : User) (now later : ℕ)
      → jwt.signs settings.jwt_secret_key settings.jwt_algorithm ≡ true
      → now ≤ later
      → later < now + settings.jwt_expire_minutes * 60
      → decode_access_token jwt settings later (create_access_token jwt settings now user)
        ≡ ok (record {
          user_id = pos user.id;
          username = str user.username;
          material_center_code = num user.material_center_code;
        })
  unfolding decode_access_token create_access_token payload_of as_int get_field codes text_eq
  decode_access_token-create_access_token user now later signs begun h = ground (
    arith,
    jwt.decodes user settings.jwt_secret_key settings.jwt_algorithm now later
        (now + settings.jwt_expire_minutes * 60) signs begun h,
    parse_int-print_ℕ user.id,
  )

  login_cases :
      (verify_password : Text → Text → Bool) (within_limit : Bool) (username password : Text)
      (now : ℕ) (s : Session) (token : TokenOut)
      → login_route jwt settings verify_password within_limit username password now s ≡ ok token
      → (user : User) × (authenticate_user verify_password username password s ≡ ok user)
        × (token.access_token ≡ create_access_token jwt settings now user)
  unfolding login_route logged_in
  login_cases verify_password within_limit username password now s token h =
      elim (Result-cases (authenticate_user verify_password username password s)) [
        | inl (user, e) ↦ (user, e, ground arith)
        | inr (e, failed) ↦ absurd (ground arith)
      ]

  -- If the JWT library signs with the secret of the settings, then from the login on until it
  -- expires, the token stands for the account that logged in: a request with it comes from the row
  -- that the database then has for that account, and is refused with 401 exactly if that row is
  -- gone or no longer active.
  pub login_route-get_current_user :
      (verify_password : Text → Text → Bool) (within_limit : Bool) (username password : Text)
      (now later : ℕ) (s : Session) (db : Db) (token : TokenOut)
      → login_route jwt settings verify_password within_limit username password now s ≡ ok token
      → jwt.signs settings.jwt_secret_key settings.jwt_algorithm ≡ true
      → now ≤ later
      → later < now + settings.jwt_expire_minutes * 60
      → (user : User) × (authenticate_user verify_password username password s ≡ ok user)
        × ((row : User)
            → get_user user.id db.users ≡ some row
            → row.is_active ≡ true
            → get_current_user jwt settings later token.access_token db ≡ ok row)
        × ((get_user user.id db.users ≡ none)
            → get_current_user jwt settings later token.access_token db ≡ err (http 401))
        × ((row : User)
            → get_user user.id db.users ≡ some row
            → row.is_active ≡ false
            → get_current_user jwt settings later token.access_token db ≡ err (http 401))
  unfolding get_current_user get_user_by active_user
  login_route-get_current_user verify_password within_limit username password now later s db token h
        signs begun fresh =
      let (user, e, made) =
        login_cases verify_password within_limit username password now s token h in
      let decoded = decode_access_token-create_access_token user now later signs begun fresh in
      (
        user,
        e,
        λ row there active. ground (arith, decoded),
        λ gone. ground (arith, decoded),
        λ row there inactive. ground (arith, decoded),
      )
