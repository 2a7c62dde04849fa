-- ===== src/Tests/Scripts.antt =====
-- The scripts at small inputs.
use fembin.Base.{ℕ, ◌≡◌, ◌⊎◌, inr, refl, Text, codes, text_eq, some, [], ◌∷◌, true, false}
use fembin.Base.Int.{pos}
use fembin.Exec.{ok}
use fembin.Db.{Session, State}
use fembin.Scripts.Export.{Disk, ExportRow, run}
use fembin.Scripts.Export.Resumes.{Resumed, run_resumes}
use fembin.Auth.{create_user, find_user}
use fembin.Strings.{lower, strip}
use fembin.Table.{get_row}
use fembin.Scripts.Accounts.{
  InitArgs, init_db, in_script, seed_all, center_if, ensure_material_center, seed_user,
}
use fembin.Scripts.Accounts.Again.{knows, init_db_again}
use fembin.Scripts.SeedImport.{seed_import, is_confirmed, not_configured, already_seeded, aborted}
use fembin.Scripts.SeedImport.Guard.{seed_import_guarded}
use fembin.Tests.Data.{db, catalog, repr}
use fembin.Tests.Store.{store}

-- a file that has one of the two items of the server
abbrev seven : ExportRow
seven = record {
  busy_code = pos 7;
  name = codes "Bolt";
  print_name = [];
  price = record { neg = false; coeff = 9; exp = pos 0 };
}

abbrev started : Disk Unit
started = record { output = some (seven ∷ []); net = tt }

run_resumes_example :
    Resumed repr catalog 2 8 (seven ∷ []) started refl (run repr catalog false 2 8 started)
run_resumes_example = run_resumes repr catalog 2 8 (seven ∷ []) started refl

abbrev args : InitArgs
args = record {
  material_center_code = pos 201;
  seed_material_center = true;
  admin_username = codes "admin";
  admin_password = codes "a";
  admin_full_name = codes "Administrator";
  user_username = codes "ann";
  user_password = codes "b";
  user_full_name = codes "Ann";
}

abbrev hash : Text → Text
hash t = b'#' ∷ t

abbrev empty : Session
empty = record { saved = db; now = db }

abbrev set_up : Session
set_up = (init_db hash true args empty).1

set_up_ends : init_db hash true args empty ≡ (ok tt, set_up)
unfolding init_db in_script seed_all center_if ensure_material_center get_row seed_user create_user
    find_user text_eq codes
set_up_ends = refl

init_db_again_example :
    (knows (codes "admin") set_up ≡ true)
    × (knows (codes "ann") set_up ≡ true)
    × (init_db hash true args set_up ≡ (ok tt, set_up))
init_db_again_example = init_db_again hash args empty set_up set_up_ends

abbrev begun : State ℕ
begun = record { session = empty; net = 0 }

not_typed : is_confirmed (codes "no") ≡ false
unfolding is_confirmed text_eq codes lower strip
not_typed = refl

seed_import_guarded_example :
    let (r, t) =
      seed_import store (codes "private") 100 (codes "https://shop") (codes "no") begun in
    ((r ≡ ok not_configured) ⊎ (r ≡ ok already_seeded) ⊎ (r ≡ ok aborted))
    × (t.net ≡ 0)
    × (t.session.saved ≡ db)
seed_import_guarded_example =
    seed_import_guarded store (codes "private") 100 (codes "https://shop") (codes "no") begun
      (inr (inr not_typed))
