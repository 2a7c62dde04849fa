-- ===== src/Auth/Login.antt =====
-- Creating an account and logging in.
use fembin.Base.{
  ◌≡◌, ◌≢◌, refl, Text, text_eq, text_eq_iff, text_eq_refl, none, some, List, [], ◌∷◌, ◌++◌, Bool,
  true, arith, if◌then◌else◌, Option-cases, Bool-cases, inl, inr,
}
use fembin.Exec.{ok}
use fembin.Table.{get_row}
use fembin.Db.{User, Session}
use fembin.Auth.{find_user, NewUser, user_of, create_user, authenticate_user, is_open}

pub find_user-append :
    (name : Text) (us : List User) (u : User)
    → find_user name (us ++ u ∷ []) ≡ elim (find_user name us) [
      | some v ↦ some v
      | none ↦ if text_eq u.username name then some u else none
    ]
unfolding find_user
find_user-append name [] u = refl
find_user-append name (v ∷ us) u = ground (arith, find_user-append name us u)

create_user_ok :
    (hash_password : Text → Text) (new : NewUser) (s t : Session) (user : User)
    → create_user hash_password new s ≡ (ok user, t)
    → (find_user new.username s.now.users ≡ none)
      × (user ≡ user_of hash_password new s.now.next_user_id)
      × (t.now.users ≡ s.now.users ++ user ∷ [])
unfolding create_user
create_user_ok hash_password new s t user e =
    elim (Option-cases (find_user new.username s.now.users)) [
      | inr (taken, found) ↦ absurd (ground arith)
      | inl free ↦
          elim (Bool-cases (
            is_open (get_row (λ c. c.busy_code) new.material_center_code s.now.material_centers))) [
              | inr closed ↦ absurd (ground arith)
              | inl opened ↦ ground arith
            ]
    ]

-- If the hash made from a password verifies it, an account that was created with that password can
-- log in with it; and every other name logs in, or fails to, as before.
pub authenticate_user-create_user :
    (hash_password : Text → Text) (verify_password : Text → Text → Bool) (new : NewUser)
    (s t : Session) (user : User)
    → verify_password new.password (hash_password new.password) ≡ true
    → create_user hash_password new s ≡ (ok user, t)
    → (authenticate_user verify_password new.username new.password t ≡ ok user)
      × ((name password : Text)
          → name ≢ new.username
          → authenticate_user verify_password name password t
            ≡ authenticate_user verify_password name password s)
unfolding authenticate_user
authenticate_user-create_user hash_password verify_password new s t user v e =
    let (free, made, stored) = create_user_ok hash_password new s t user e in
    (
      ground (
        arith,
        free,
        made,
        stored,
        v,
        find_user-append new.username s.now.users user,
        text_eq_refl new.username,
      ),
      λ name password other. ground (
        arith,
        made,
        stored,
        find_user-append name s.now.users user,
        text_eq_iff user.username name,
      ),
    )
