-- ===== src/Scripts/Accounts/Again.antt =====
-- scripts/init_db.py: running it a second time.
use fembin.Base.{
  ◌≡◌, refl, Text, text_eq_refl, Option, none, some, List, [], ◌∷◌, ◌++◌, Bool, true, false, arith,
  Option-cases, inl, inr,
}
use fembin.Base.Int.{ℤ, eqb_ℤ_iff}
use fembin.Exec.{ok, >>=-ok}
use fembin.Table.{get_row}
use fembin.Db.{MaterialCenter, Session, rollback}
use fembin.Auth.{NewUser, create_user, find_user, user_of}
use fembin.Auth.Login.{find_user-append}
use fembin.Scripts.Accounts.{
  InitArgs, in_script, placeholder, ensure_material_center, center_if, admin_of, user_of_args,
  seed_user, seed_all, init_db,
}

abbrev pub has : {A : Type 0} → Option A → Bool
has none = false
has (some a) = true

abbrev pub knows : Text → Session → Bool
knows name s = has (find_user name s.now.users)

abbrev has_center : ℤ → Session → Bool
has_center code s = has (get_row (λ c. c.busy_code) code s.now.material_centers)

get_row-append :
    (code : ℤ) (cs : List MaterialCenter) (c : MaterialCenter)
    → c.busy_code ≡ code
    → has (get_row (λ x. x.busy_code) code (cs ++ c ∷ [])) ≡ true
unfolding get_row
get_row-append code [] c e = ground (arith, eqb_ℤ_iff c.busy_code code)
get_row-append code (x ∷ cs) c e = ground (arith, get_row-append code cs c e)

get_row-kept :
    (code : ℤ) (cs : List MaterialCenter) (c : MaterialCenter)
    → has (get_row (λ x. x.busy_code) code cs) ≡ true
    → has (get_row (λ x. x.busy_code) code (cs ++ c ∷ [])) ≡ true
unfolding get_row
get_row-kept code [] c e = ground arith
get_row-kept code (x ∷ cs) c e = ground (arith, get_row-kept code cs c)

-- a session with nothing uncommitted, that knows no fewer names and branches than `s`
record Grown (s t : Session) : Type 0 where
  names : (k : Text) → knows k s ≡ true → knows k t ≡ true
  centers : (code : ℤ) → has_center code s ≡ true → has_center code t ≡ true
  clean : s.now ≡ s.saved → t.now ≡ t.saved

Grown-refl : (s : Session) → Grown s s
Grown-refl s = record { names = λ k g. g; centers = λ c g. g; clean = λ c. c }

Grown-trans : (s t u : Session) → Grown s t → Grown t u → Grown s u
Grown-trans s t u f g = record {
  names = λ k h. g.names k (f.names k h);
  centers = λ c h. g.centers c (f.centers c h);
  clean = λ c. g.clean (f.clean c);
}

center_if_after :
    (b : Bool) (code : ℤ) (s t : Session)
    → center_if b code s ≡ (ok tt, t)
    → Grown s t × (b ≡ true → has_center code t ≡ true)
unfolding center_if ensure_material_center
center_if_after false code s t h =
    let same : t ≡ s = ground arith in (rw same (Grown-refl s), λ b. absurd (ground arith))
center_if_after true code s t h =
    elim (Option-cases
      (get_row (λ (c : MaterialCenter). c.busy_code) code s.now.material_centers)) [
        | inr (center, e) ↦
            let same : t ≡ s = ground arith in (rw same (Grown-refl s), λ b. ground arith)
        | inl e ↦ (
          record {
            names = λ k g. ground arith;
            centers =
                λ c g. ground (arith, get_row-kept c s.now.material_centers (placeholder code));
            clean = λ c. ground arith;
          },
          λ b. ground (arith, get_row-append code s.now.material_centers (placeholder code) refl),
        )
      ]

module _ (hash_password : Text → Text) where
  seed_user_after :
      (new : NewUser) (s t : Session)
      → seed_user hash_password new s ≡ (ok tt, t)
      → Grown s t × (knows new.username t ≡ true)
  unfolding seed_user create_user
  seed_user_after new s t h = elim (Option-cases (find_user new.username s.now.users)) [
    | inr (taken, e) ↦ let same : t ≡ s = ground arith in (rw same (Grown-refl s), ground arith)
    | inl free ↦
        let user = user_of hash_password new s.now.next_user_id in
        (
          record {
            names = λ k g. ground (arith, find_user-append k s.now.users user);
            centers = λ c g. ground arith;
            clean = λ c. ground arith;
          },
          ground (arith, find_user-append new.username s.now.users user, text_eq_refl new.username),
        )
  ]

  seed_user_known :
      (new : NewUser) (s : Session)
      → knows new.username s ≡ true
      → seed_user hash_password new s ≡ (ok tt, s)
  unfolding seed_user create_user
  seed_user_known new s h = ground arith

  -- what a session knows where `seed_all` has nothing left to do
  record IsSeeded (args : InitArgs) (s : Session) : Type 0 where
    admin : knows args.admin_username s ≡ true
    user : knows args.user_username s ≡ true
    center : args.seed_material_center ≡ true → has_center args.material_center_code s ≡ true

  seed_all_after :
      (args : InitArgs) (s t : Session)
      → seed_all hash_password args s ≡ (ok tt, t)
      → Grown s t × IsSeeded args t
  unfolding seed_all
  seed_all_after args s t h =
      let first = center_if args.seed_material_center args.material_center_code in
      let (a, e, h') = >>=-ok first _ s h in
      let u = (first s).1 in
      let (b, e', h'') = >>=-ok (seed_user hash_password (admin_of args)) _ u h' in
      let v = (seed_user hash_password (admin_of args) u).1 in
      let one =
        center_if_after args.seed_material_center args.material_center_code s u (ground arith) in
      let two = seed_user_after (admin_of args) u v (ground arith) in
      let three = seed_user_after (user_of_args args) v t h'' in
      (
        Grown-trans s u t one.0 (Grown-trans u v t two.0 three.0),
        record {
          admin = three.0.names args.admin_username two.1;
          user = three.1;
          center = λ f.
              three.0.centers args.material_center_code
                (two.0.centers args.material_center_code (one.1 f));
        },
      )

  center_if_known :
      (b : Bool) (code : ℤ) (s : Session)
      → (b ≡ true → has_center code s ≡ true)
      → center_if b code s ≡ (ok tt, s)
  unfolding center_if ensure_material_center
  center_if_known false code s h = refl
  center_if_known true code s h = ground (arith, h refl)

  seed_all_known :
      (args : InitArgs) (s : Session) → IsSeeded args s → seed_all hash_password args s ≡ (ok tt, s)
  unfolding seed_all
  seed_all_known args s k = ground (
    arith,
    center_if_known args.seed_material_center args.material_center_code s k.center,
    seed_user_known (admin_of args) s k.admin,
    seed_user_known (user_of_args args) s k.user,
  )

  -- Where the set-up of the database ends well, both accounts are there, and to run it again ends
  -- well too and changes nothing.
  pub init_db_again :
      (args : InitArgs) (s t : Session)
      → init_db hash_password true args s ≡ (ok tt, t)
      → (knows args.admin_username t ≡ true)
        × (knows args.user_username t ≡ true)
        × (init_db hash_password true args t ≡ (ok tt, t))
  unfolding init_db in_script
  init_db_again args s t h =
      let u = (seed_all hash_password args (rollback s)).1 in
      let (grown, k) = seed_all_after args (rollback s) u (ground arith) in
      let same : t ≡ u = ground (arith, grown.clean refl) in
      let at_t : IsSeeded args t = rw same k in
      let back : rollback t ≡ t = ground arith in
      let known = seed_all_known args (rollback t) (rw back at_t) in
      (at_t.admin, at_t.user, ground arith)
