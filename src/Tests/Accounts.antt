-- ===== src/Tests/Accounts.antt =====
-- Logins and routes with a token that holds its claims in the clear.
use fembin.Base.{
  leb, ◌≤◌, ◌&&◌, ℕ, zero, suc, ◌<◌, ◌≡◌, refl, Text, codes, text_eq, Option, none, some, List, [],
  ◌∷◌, ◌++◌, Bool, true, false, arith, length, ltb, if◌then◌else◌,
}
use fembin.Base.Int.{ℤ, pos, negsuc}
use fembin.Exec.{ok, err}
use fembin.Json.{num, str, Fields, end, field}
use fembin.Strings.{print_ℕ, parse_int}
use fembin.Json.{get_field}
use mathlib.Core.List.{Perm}
use fembin.Db.{User, Db, Session, Product}
use fembin.Table.Order.{Collation, select_where, IsOrdered}
use fembin.Auth.{find_user, authenticate_user}
use fembin.Auth.Tokens.{
  Jwt, JwtSettings, claims_of, create_access_token, decode_access_token, payload_of, as_int,
}
use fembin.Catalog.Queries.{list_products}
use fembin.Catalog.Queries.Listings.{is_asked_for, list_products_exact}
use fembin.Api.{HttpError, http, get_user, get_user_by, active_user, get_current_user}
use fembin.Api.Accounts.{
  UserOut, UserCreateRequest, TokenOut, logged_in, login_route, create_user_route,
}
use fembin.Api.Sessions.{login_route-get_current_user}
use fembin.Api.Products.{set_product_barcode_route}
use fembin.Api.Answers.{
  BarcodeAnswers, Admitted, set_product_barcode_route_answers, create_user_route_admits,
}
use fembin.Tests.Data.{db}

-- a text with its length in front, and back
abbrev put : Text → Text → Text
put t k = length t ∷ t ++ k

cut : ℕ → Text → Text × Text
cut zero t = ([], t)
cut (suc n) [] = ([], [])
cut (suc n) (c ∷ t) = let (a, b) = cut n t in (c ∷ a, b)

cut-append : (t k : Text) → cut (length t) (t ++ k) ≡ (t, k)
unfolding cut
cut-append [] k = refl
cut-append (c ∷ t) k = ground (arith, cut-append t k)

abbrev put_int : ℤ → Text → Text
put_int (pos n) k = 0 ∷ n ∷ k
put_int (negsuc n) k = 1 ∷ n ∷ k

encode : Fields → Text → Text → Text
encode
      (field a (str sub) (
        field b
          (str name)
          (field c (num code) (field d (num (pos made)) (field e (num (pos until)) end)))))
      key algorithm =
    made ∷ until ∷ put sub (put name (put_int code []))
encode _ key algorithm = []

abbrev claims : Text → Text → ℤ → ℕ → ℕ → Fields
claims sub name code made until = field (codes "sub") (str sub) (
    field (codes "username") (str name) (
      field (codes "material_center_code") (num code)
        (field (codes "iat") (num (pos made)) (field (codes "exp") (num (pos until)) end))))

get_int : Text → Option ℤ
get_int (zero ∷ n ∷ []) = some (pos n)
get_int (suc k ∷ n ∷ []) = some (negsuc n)
get_int _ = none

code_in : ℕ → ℕ → Text → Text × Text → Option Fields
unfolding get_int
code_in made until sub (name, k) = elim (get_int k) [
  | none ↦ none
  | some code ↦ some (claims sub name code made until)
]

name_in : ℕ → ℕ → Text × Text → Option Fields
unfolding cut code_in
name_in made until (sub, []) = none
name_in made until (sub, n ∷ k) = code_in made until sub (cut n k)

decode : ℕ → Text → Text → List Text → Option Fields
unfolding cut name_in
decode now (made ∷ until ∷ n ∷ k) key algorithms =
    if leb made now && ltb now until then name_in made until (cut n k) else none
decode now _ key algorithms = none

get_int-put_int : (z : ℤ) → get_int (put_int z []) ≡ some z
unfolding get_int
get_int-put_int (pos n) = refl
get_int-put_int (negsuc n) = refl

-- the one algorithm that the library here knows, with a key
signs : Text → Text → Bool
signs [] algorithm = false
signs (c ∷ key) algorithm = text_eq algorithm (codes "HS256")

decodes :
    (user : User) (key algorithm : Text) (made now until : ℕ)
    → signs key algorithm ≡ true
    → made ≤ now
    → now < until
    → decode now (encode (claims_of user made until) key algorithm) key (algorithm ∷ [])
      ≡ some (claims_of user made until)
unfolding decode name_in code_in encode
decodes user key algorithm made now until known begun h = ground (
  arith,
  cut-append (print_ℕ user.id) (put user.username (put_int user.material_center_code [])),
  cut-append user.username (put_int user.material_center_code []),
  get_int-put_int user.material_center_code,
)

abbrev clear : Jwt
clear = record { encode = encode; decode = decode; signs = signs; decodes = decodes }

abbrev settings : JwtSettings
settings = record {
  jwt_secret_key = codes "key";
  jwt_algorithm = codes "HS256";
  jwt_expire_minutes = 480;
}

abbrev root : User
root = record {
  id = 1;
  username = codes "root";
  password_hash = codes "#secret";
  full_name = codes "Root";
  material_center_code = pos 201;
  is_active = true;
  is_superadmin = true;
}

abbrev verify : Text → Text → Bool
verify t h = text_eq (b'#' ∷ t) h

abbrev with_root : Db
with_root = record db { users = root ∷ [] }

abbrev begun : Session
begun = record { saved = with_root; now = with_root }

abbrev token : TokenOut
token = record {
  access_token = create_access_token clear settings 1000 root;
  token_type = codes "bearer";
}

root_logs_in :
    login_route clear settings verify true (codes "root") (codes "secret") 1000 begun ≡ ok token
unfolding login_route authenticate_user find_user logged_in text_eq codes
root_logs_in = refl

signed : signs settings.jwt_secret_key settings.jwt_algorithm ≡ true
unfolding signs text_eq codes
signed = refl

login_route-get_current_user_example :
    (user : User) × (authenticate_user verify (codes "root") (codes "secret") begun ≡ ok user)
    × ((row : User)
        → get_user user.id with_root.users ≡ some row
        → row.is_active ≡ true
        → get_current_user clear settings 2000 token.access_token with_root ≡ ok row)
    × ((get_user user.id with_root.users ≡ none)
        → get_current_user clear settings 2000 token.access_token with_root ≡ err (http 401))
    × ((row : User)
        → get_user user.id with_root.users ≡ some row
        → row.is_active ≡ false
        → get_current_user clear settings 2000 token.access_token with_root ≡ err (http 401))
login_route-get_current_user_example =
    login_route-get_current_user clear settings verify true (codes "root") (codes "secret") 1000
      2000 begun with_root token root_logs_in signed (omega arith) (omega arith)

root_calls : get_current_user clear settings 2000 token.access_token with_root ≡ ok root
unfolding get_current_user get_user_by get_user active_user decode_access_token create_access_token
    payload_of as_int get_field parse_int print_ℕ text_eq codes encode decode name_in code_in cut
    get_int
root_calls = refl

set_product_barcode_route_answers_example :
    let (r, t) =
      set_product_barcode_route clear settings
        (pos 7)
        (codes "4006381")
        2000
        token.access_token
        begun in
    BarcodeAnswers (pos 7) (codes "4006381") begun t r
set_product_barcode_route_answers_example =
    set_product_barcode_route_answers clear settings 2000 token.access_token (pos 7)
      (codes "4006381") root begun root_calls refl

abbrev ann : UserCreateRequest
ann = record {
  username = codes "ann";
  password = codes "secret";
  full_name = codes "Ann";
  material_center_code = pos 201;
}

abbrev hash : Text → Text
hash t = b'#' ∷ t

create_user_route_admits_example :
    let (r, t) = create_user_route clear settings hash ann 2000 token.access_token begun in
    ((out : UserOut)
      → r ≡ ok out
      → (caller : User) × (get_current_user clear settings 2000 token.access_token with_root
          ≡ ok caller)
        × (caller.is_superadmin ≡ true)
        × Admitted hash ann begun t out)
    × ((e : HttpError) → r ≡ err e → t ≡ begun)
create_user_route_admits_example =
    create_user_route_admits clear settings 2000 token.access_token hash ann begun

-- a collation that tells nothing apart
abbrev flat : Collation
flat = record {
  le = λ a b. true;
  equal = λ a b. true;
  ilike = λ a b. true;
  le_total = λ a b h. refl;
  le_trans = λ a b c h k. refl;
}

list_products_exact_example :
    let rows = list_products flat (some (codes "bo")) none (some true) begun in
    IsOrdered flat (λ (p : Product). p.name) rows
    × Perm rows
        (select_where (is_asked_for flat (some (codes "bo")) none (some true)) with_root.products)
list_products_exact_example = list_products_exact flat (some (codes "bo")) none (some true) begun
