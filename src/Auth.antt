-- ===== src/Auth.antt =====
-- app/domain/auth/users.py: accounts. The hash of the password library is a parameter.
pub mod Login
pub mod Tokens
use fembin.Base.{
  ℕ, ◌+◌, Text, text_eq, Option, none, some, List, [], ◌∷◌, ◌++◌, Bool, true, false, not, ◌&&◌,
  if◌then◌else◌,
}
use fembin.Base.Int.{ℤ}
use fembin.Exec.{Exec, Result, ok, err}
use fembin.Errors.{Exn, duplicate_username, unknown_material_center, invalid_credentials}
use fembin.Table.{get_row}
use fembin.Table.Order.{Collation, order_by}
use fembin.Db.{Db, MaterialCenter, User, Session, commit}

-- select(User).where(User.username == username)
unfoldable pub find_user : Text → List User → Option User
find_user username [] = none
find_user username (u ∷ us) = if text_eq u.username username then some u else find_user username us

abbrev pub is_open : Option MaterialCenter → Bool
is_open none = false
is_open (some center) = center.is_active

pub record NewUser : Type 0 where
  pub username : Text
  pub password : Text
  pub full_name : Text
  pub material_center_code : ℤ
  pub is_superadmin : Bool

abbrev pub user_of : (Text → Text) → NewUser → ℕ → User
user_of hash_password new i = record {
  id = i;
  username = new.username;
  password_hash = hash_password new.password;
  full_name = new.full_name;
  material_center_code = new.material_center_code;
  is_active = true;
  is_superadmin = new.is_superadmin;
}

abbrev pub add_user : User → Db → Db
add_user user db = record db { users = db.users ++ user ∷ []; next_user_id = db.next_user_id + 1 }

unfoldable pub create_user : (Text → Text) → NewUser → Exec Exn Session User
create_user hash_password new s = elim (find_user new.username s.now.users) [
  | some taken ↦ (err duplicate_username, s)
  | none ↦
      elim (is_open (get_row (λ c. c.busy_code) new.material_center_code s.now.material_centers)) [
        | false ↦ (err unknown_material_center, s)
        | true ↦
            let user = user_of hash_password new s.now.next_user_id in
            (ok user, commit (record s { now = add_user user s.now }))
      ]
]

-- verify_password(password, user.password_hash)
unfoldable pub authenticate_user : (Text → Text → Bool) → Text → Text → Session → Result Exn User
authenticate_user verify_password username password s = elim (find_user username s.now.users) [
  | none ↦ err invalid_credentials
  | some user ↦ elim (user.is_active && verify_password password user.password_hash) [
    | true ↦ ok user
    | false ↦ err invalid_credentials
  ]
]

unfoldable pub list_users : Collation → Session → List User
list_users collation s = order_by collation (λ u. u.username) s.now.users
