-- ===== src/Scripts/Accounts.antt =====
-- scripts/init_db.py, create_user.py and create_superadmin.py: accounts made from a shell. The
-- migrations are a parameter, whether their process ends well.
pub mod Again
use fembin.Base.{ℕ, Text, codes, none, some, [], ◌∷◌, ◌++◌, Bool, true, false}
use fembin.Base.Int.{ℤ}
use fembin.Exec.{Exec, Result, ok, err, ◌>>=◌, ◌>>◌}
use fembin.Errors.{Exn, duplicate_username, unknown_material_center}
use fembin.Strings.{print_ℤ}
use fembin.Table.{get_row}
use fembin.Db.{Db, MaterialCenter, User, Session, commit, rollback}
use fembin.Auth.{NewUser, create_user}

-- sys.exit with a status, or an exception that ends the process
pub data Ended : Type 0 where
  exit : ℕ → Ended
  raised : Exn → Ended

-- a script's session: it begins with what is committed, and is closed on every way out
unfoldable pub in_script : {A : Type 0} → Exec Ended Session A → Exec Ended Session A
in_script m s = let (r, t) = m (rollback s) in (r, rollback t)

-- an existing name is passed over
unfoldable pub seeded : Result Exn User → Result Ended Unit
seeded (ok user) = ok tt
seeded (err duplicate_username) = ok tt
seeded (err unknown_material_center) = err (exit 1)
seeded (err e) = err (raised e)

unfoldable pub made : Result Exn User → Result Ended Unit
made (ok user) = ok tt
made (err duplicate_username) = err (exit 1)
made (err unknown_material_center) = err (exit 1)
made (err e) = err (raised e)

-- a branch that no sync has brought yet
abbrev pub placeholder : ℤ → MaterialCenter
placeholder code = record {
  busy_code = code;
  name = codes "Branch " ++ print_ℤ code;
  alias = none;
  parent_group = none;
  is_active = true;
  vch_series_name = none;
  vch_no_prefix = none;
  vch_series_resolved_at = none;
}

abbrev pub with_center : MaterialCenter → Session → Session
with_center center s = record s {
  now = record s.now { material_centers = s.now.material_centers ++ center ∷ [] };
}

unfoldable pub ensure_material_center : ℤ → Exec Ended Session Unit
ensure_material_center code s = elim (get_row (λ c. c.busy_code) code s.now.material_centers) [
  | some center ↦ (ok tt, s)
  | none ↦ (ok tt, commit (with_center (placeholder code) s))
]

-- the arguments of init_db.py
pub record InitArgs : Type 0 where
  pub material_center_code : ℤ
  pub seed_material_center : Bool
  pub admin_username : Text
  pub admin_password : Text
  pub admin_full_name : Text
  pub user_username : Text
  pub user_password : Text
  pub user_full_name : Text

abbrev pub admin_of : InitArgs → NewUser
admin_of args = record {
  username = args.admin_username;
  password = args.admin_password;
  full_name = args.admin_full_name;
  material_center_code = args.material_center_code;
  is_superadmin = true;
}

abbrev pub user_of_args : InitArgs → NewUser
user_of_args args = record {
  username = args.user_username;
  password = args.user_password;
  full_name = args.user_full_name;
  material_center_code = args.material_center_code;
  is_superadmin = false;
}

unfoldable pub center_if : Bool → ℤ → Exec Ended Session Unit
center_if true code s = ensure_material_center code s
center_if false code s = (ok tt, s)

module _ (hash_password : Text → Text) where
  unfoldable pub seed_user : NewUser → Exec Ended Session Unit
  unfolding seeded
  seed_user new s = let (r, t) = create_user hash_password new s in (seeded r, t)

  unfoldable pub seed_all : InitArgs → Exec Ended Session Unit
  seed_all args = do
    center_if args.seed_material_center args.material_center_code
    seed_user (admin_of args)
    seed_user (user_of_args args)

  unfoldable pub init_db : Bool → InitArgs → Exec Ended Session Unit
  init_db false args s = (err (exit 1), s)
  init_db true args s = in_script (seed_all args) s

  -- create_user.py and create_superadmin.py, which differ in the flag
  unfoldable pub create_user_main : NewUser → Exec Ended Session Unit
  unfolding made
  create_user_main new =
      in_script (λ s. let (r, t) = create_user hash_password new s in (made r, t))
