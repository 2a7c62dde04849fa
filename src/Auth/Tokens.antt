-- ===== src/Auth/Tokens.antt =====
-- app/domain/auth/tokens.py: access tokens. The JWT library is a parameter; its clock is in seconds,
-- and it turns the datetimes of a payload into such numbers.
use fembin.Base.{
  ℕ, ◌+◌, ◌*◌, ◌<◌, ◌≤◌, ◌≡◌, Text, Bool, codes, Option, none, some, List, [], ◌∷◌, true, false,
}
use fembin.Base.Int.{ℤ, pos}
use fembin.Exec.{Result, err}
use fembin.Errors.{Exn, invalid_token, or_error}
use fembin.Strings.{print_ℕ, parse_int}
use fembin.Json.{Json, null, bool, num, str, arr, obj, Fields, end, field, get_field}
use fembin.Db.{User}

abbrev pub claims_of : User → ℕ → ℕ → Fields
claims_of user now until = field (codes "sub") (str (print_ℕ user.id)) (
    field (codes "username") (str user.username) (
      field (codes "material_center_code") (num user.material_center_code)
        (field (codes "iat") (num (pos now)) (field (codes "exp") (num (pos until)) end))))

-- jwt.encode and jwt.decode; `none` is a PyJWTError. `signs` says that the library makes and checks
-- signatures with that one key under that algorithm (HMAC, and a key that it takes). Then a token
-- that was made from such claims reads back with them, from the second that they have under "iat"
-- until the one under "exp".
pub record Jwt : Type 0 where
  pub encode : Fields → Text → Text → Text
  pub decode : (now : ℕ) → Text → Text → List Text → Option Fields
  pub signs : (key algorithm : Text) → Bool
  pub decodes :
      (user : User) (key algorithm : Text) (made now until : ℕ)
      → signs key algorithm ≡ true
      → made ≤ now
      → now < until
      → decode now (encode (claims_of user made until) key algorithm) key (algorithm ∷ [])
        ≡ some (claims_of user made until)

-- what tokens.py reads of app/config.py
pub record JwtSettings : Type 0 where
  pub jwt_secret_key : Text
  pub jwt_algorithm : Text
  pub jwt_expire_minutes : ℕ

-- The annotations `str` and `int` of the last two are not checked at run time.
pub record TokenPayload : Type 0 where
  pub user_id : ℤ
  pub username : Json
  pub material_center_code : Json

-- int(value) of a JSON value; `none` is a ValueError or a TypeError
unfoldable pub as_int : Json → Option ℤ
as_int (str t) = parse_int t
as_int (num z) = some z
as_int (bool true) = some (pos 1)
as_int (bool false) = some (pos 0)
as_int null = none
as_int (arr xs) = none
as_int (obj d) = none

unfoldable pub payload_of : Option Json → Option Json → Option Json → Option TokenPayload
unfolding as_int
payload_of (some sub) (some username) (some code) = elim (as_int sub) [
  | none ↦ none
  | some i ↦ some (record { user_id = i; username = username; material_center_code = code })
]
payload_of _ _ _ = none

module _ (jwt : Jwt) (settings : JwtSettings) where
  unfoldable pub create_access_token : ℕ → User → Text
  create_access_token now user =
      jwt.encode (claims_of user now (now + settings.jwt_expire_minutes * 60))
        settings.jwt_secret_key settings.jwt_algorithm

  unfoldable pub decode_access_token : ℕ → Text → Result Exn TokenPayload
  unfolding payload_of
  decode_access_token now token =
      elim (jwt.decode now token settings.jwt_secret_key (settings.jwt_algorithm ∷ [])) [
        | none ↦ err invalid_token
        | some payload ↦ or_error invalid_token (
            payload_of (get_field (codes "sub") payload) (get_field (codes "username") payload)
              (get_field (codes "material_center_code") payload))
      ]
