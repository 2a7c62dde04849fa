-- ===== src/Api/Answers.antt =====
-- The status codes of the routes that change the store's rows (app/api/v1/products.py, auth.py).
use fembin.Base.{
  ℕ, ◌≡◌, ◌≢◌, ◌↔◌, ◌⊎◌, inl, inr, refl, Text, none, some, [], ◌∷◌, ◌++◌, ◌+◌, true, false, arith,
  Option-cases, Bool-cases,
}
use fembin.Base.Int.{ℤ}
use fembin.Exec.{Exec, Result, ok, err, Result-cases}
use fembin.Errors.{Exn, duplicate_username, unknown_material_center}
use fembin.Db.{Db, Product, User, Session, commit}
use fembin.Auth.{find_user, create_user, is_open, user_of, add_user, NewUser}
use fembin.Auth.Tokens.{Jwt, JwtSettings}
use fembin.Catalog.Queries.{get_product, other_with_barcode, set_product_barcode, with_barcode}
use fembin.Table.{get_row, get_row-update_row_self}
use fembin.Api.{HttpError, http, get_current_user, get_current_superadmin}
use fembin.Api.Accounts.{
  UserOut, UserCreateRequest, user_out, superadmin_of, for_superadmin, created, create_user_route,
}
use fembin.Api.Products.{ProductOut, product_out, assigned, set_product_barcode_route}

-- what the route answers, and leaves, by what the table holds
pub record BarcodeAnswers (code : ℤ) (barcode : Text) (s t : Session)
    (r : Result HttpError ProductOut) : Type 0 where
  pub unknown : (r ≡ err (http 404)) ↔ (get_product code s ≡ none)
  pub taken :
      (r ≡ err (http 409))
      ↔ ((get_product code s ≢ none) × (other_with_barcode barcode code s.now.products ≢ none))
  pub refused : (e : HttpError) → r ≡ err e → t ≡ s
  pub stored :
      (out : ProductOut)
      → r ≡ ok out
      → (product : Product) × (get_product code s ≡ some product)
        × (get_product code t ≡ some (with_barcode barcode product))
        × (out ≡ product_out (with_barcode barcode product))
        × (t.saved ≡ t.now)

barcode_answers :
    (code : ℤ) (barcode : Text) (s : Session)
    → let (r, t) = set_product_barcode code barcode s in
      BarcodeAnswers code barcode s t (assigned r)
unfolding set_product_barcode assigned get_product
barcode_answers code barcode s = elim (Option-cases (get_product code s)) [
  | inl e ↦ record {
    unknown = ground arith;
    taken = ground arith;
    refused = λ x h. ground arith;
    stored = λ out h. absurd (ground arith);
  }
  | inr (product, e) ↦ elim (Option-cases (other_with_barcode barcode code s.now.products)) [
    | inl free ↦ record {
      unknown = ground arith;
      taken = ground arith;
      refused = λ x h. absurd (ground arith);
      stored = λ out h. (
        product,
        e,
        ground (
          arith,
          get_row-update_row_self (λ (p : Product). p.busy_code) code (with_barcode barcode)
              s.now.products {x = product} (λ x. refl) e,
        ),
        ground arith,
        ground arith,
      );
    }
    | inr (other, found) ↦ record {
      unknown = ground arith;
      taken = ground arith;
      refused = λ x h. ground arith;
      stored = λ out h. absurd (ground arith);
    }
  ]
]

-- the account that a request made: its row in the table, and what was checked before
pub record Admitted (hash_password : Text → Text) (body : UserCreateRequest) (s t : Session)
    (out : UserOut) : Type 0 where
  pub account : User
  pub was_free : find_user body.username s.now.users ≡ none
  pub is_open_branch :
      is_open (get_row (λ c. c.busy_code) body.material_center_code s.now.material_centers) ≡ true
  pub username : account.username ≡ body.username
  pub password_hash : account.password_hash ≡ hash_password body.password
  pub material_center_code : account.material_center_code ≡ body.material_center_code
  pub is_active : account.is_active ≡ true
  pub is_superadmin : account.is_superadmin ≡ false
  pub shown : out ≡ user_out account
  pub stored :
      t.now
      ≡ record s.now { users = s.now.users ++ account ∷ []; next_user_id = s.now.next_user_id + 1 }
  pub committed : t.saved ≡ t.now

abbrev new_of : UserCreateRequest → NewUser
new_of body = record {
  username = body.username;
  password = body.password;
  full_name = body.full_name;
  material_center_code = body.material_center_code;
  is_superadmin = false;
}

-- a user that is made was free and of an open branch, and is stored behind the others
create_user-ok :
    (hash_password : Text → Text) (new : NewUser) (s : Session)
    → ((find_user new.username s.now.users ≡ none)
        × (is_open (get_row (λ c. c.busy_code) new.material_center_code s.now.material_centers)
            ≡ true)
        × (create_user hash_password new s ≡ (
          ok (user_of hash_password new s.now.next_user_id),
          commit (record s { now = add_user (user_of hash_password new s.now.next_user_id) s.now }),
        )))
      ⊎ ((e : Exn) × ((create_user hash_password new s).0 ≡ err e))
unfolding create_user
create_user-ok hash_password new s = elim (Option-cases (find_user new.username s.now.users)) [
  | inr (taken, e) ↦ inr (duplicate_username, ground (arith, e))
  | inl free ↦
      elim (Bool-cases
        (is_open (get_row (λ c. c.busy_code) new.material_center_code s.now.material_centers))) [
          | inr shut ↦ inr (unknown_material_center, ground (arith, free, shut))
          | inl opened ↦ inl (free, opened, ground (arith, free, opened))
        ]
]

not_created : (e : Exn) (out : UserOut) → created (err e) ≢ ok out
unfolding created
not_created e out h = ground arith

create_user-Admitted :
    (hash_password : Text → Text) (body : UserCreateRequest) (s : Session) (out : UserOut)
    → created (create_user hash_password (new_of body) s).0 ≡ ok out
    → Admitted hash_password body s (create_user hash_password (new_of body) s).1 out
create_user-Admitted hash_password body s out h =
    elim (create_user-ok hash_password (new_of body) s) [
      | inr (e, failed) ↦ absurd (not_created e out (rw (← failed) h))
      | inl (free, opened, made) ↦ rw made (record {
        account = user_of hash_password (new_of body) s.now.next_user_id;
        was_free = free;
        is_open_branch = opened;
        username = refl;
        password_hash = refl;
        material_center_code = refl;
        is_active = refl;
        is_superadmin = refl;
        shown = unfold created in ground (arith, made, h);
        stored = refl;
        committed = refl;
      })
    ]

module _ (jwt : Jwt) (settings : JwtSettings) (now : ℕ) (credentials : Text) where
  -- A caller that is no superadmin is refused with 401 or 403, and a superadmin reaches the route.
  pub for_superadmin_cases :
      {S A : Type 0} (db_of : S → Db) (route : Exec HttpError S A) (s : S)
      → ((user : User) × (get_current_user jwt settings now credentials (db_of s) ≡ ok user)
          × (user.is_superadmin ≡ true)
          × (for_superadmin jwt settings db_of now credentials route s ≡ route s))
        ⊎ ((e : HttpError) × (for_superadmin jwt settings db_of now credentials route s
              ≡ (err e, s)))
  unfolding for_superadmin superadmin_of get_current_superadmin
  for_superadmin_cases db_of route s =
      elim (Result-cases (get_current_user jwt settings now credentials (db_of s))) [
        | inl (user, e) ↦ elim (Bool-cases user.is_superadmin) [
          | inl super ↦ inl (user, e, super, ground arith)
          | inr plain ↦ inr (http 403, ground arith)
        ]
        | inr (x, e) ↦ inr (x, ground arith)
      ]

  for_superadmin_admits :
      {S A : Type 0} (db_of : S → Db) (route : Exec HttpError S A) (s : S) {caller : User}
      → get_current_user jwt settings now credentials (db_of s) ≡ ok caller
      → caller.is_superadmin ≡ true
      → for_superadmin jwt settings db_of now credentials route s ≡ route s
  unfolding for_superadmin superadmin_of get_current_superadmin
  for_superadmin_admits db_of route s e super = ground arith

  -- For a superadmin, setting a barcode answers 404 exactly if there is no product with the code,
  -- and 409 exactly if there is one and another product has the barcode; with these and any other
  -- refusal nothing changes, and otherwise the product shows its barcode, is stored with it, and
  -- is committed.
  pub set_product_barcode_route_answers :
      (code : ℤ) (barcode : Text) (caller : User) (s : Session)
      → get_current_user jwt settings now credentials s.now ≡ ok caller
      → caller.is_superadmin ≡ true
      → let (r, t) = set_product_barcode_route jwt settings code barcode now credentials s in
        BarcodeAnswers code barcode s t r
  unfolding set_product_barcode_route
  set_product_barcode_route_answers code barcode caller s e super =
      rw (for_superadmin_admits _ _ s e super) (barcode_answers code barcode s)

  -- An account is made over HTTP only for a caller that is a superadmin, under a name that was free
  -- and for an open branch; the row that is then stored and committed, behind the others, has that
  -- name and branch and the password's hash, is active and no superadmin, and is what the answer
  -- shows. Whatever the route refuses changes nothing.
  pub create_user_route_admits :
      (hash_password : Text → Text) (body : UserCreateRequest) (s : Session)
      → let (r, t) = create_user_route jwt settings hash_password body now credentials s in
        ((out : UserOut)
          → r ≡ ok out
          → (caller : User) × (get_current_user jwt settings now credentials s.now ≡ ok caller)
            × (caller.is_superadmin ≡ true)
            × Admitted hash_password body s t out)
        × ((e : HttpError) → r ≡ err e → t ≡ s)
  unfolding create_user_route for_superadmin superadmin_of get_current_superadmin create_user
      created
  create_user_route_admits hash_password body s =
      elim (Result-cases (get_current_user jwt settings now credentials s.now)) [
        | inl (user, e) ↦ elim (Bool-cases user.is_superadmin) [
          | inl super ↦ (
            λ out h. (
              user,
              e,
              super,
              rw (for_superadmin_admits (λ s. s.now) _ s e super)
                  (create_user-Admitted hash_password body s out (ground (arith, h, e, super))),
            ),
            λ x h. ground arith,
          )
          | inr plain ↦ (λ out h. absurd (ground arith), λ x h. ground arith)
        ]
        | inr (x, e) ↦ (λ out h. absurd (ground arith), λ y h. ground arith)
      ]
