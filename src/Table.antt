-- ===== src/Table.antt =====
-- SQL tables as lists of rows with an integer primary key: the row of a key, INSERT ... ON
-- DUPLICATE KEY UPDATE, and UPDATE ... WHERE the key is given.
pub mod Named
pub mod Order
use fembin.Base.{
  ◌≡◌, refl, Option, none, some, List, [], ◌∷◌, Bool, true, false, arith, if◌then◌else◌,
}
use fembin.Base.Int.{ℤ, eqb_ℤ, eqb_ℤ_iff}

module _ {A : Type 0} (key : A → ℤ) where
  -- session.get(Model, k)
  unfoldable pub get_row : ℤ → List A → Option A
  get_row k [] = none
  get_row k (x ∷ xs) = if eqb_ℤ (key x) k then some x else get_row k xs

  unfoldable pub upsert_row : ℤ → A → (A → A) → List A → List A
  upsert_row k new change [] = new ∷ []
  upsert_row k new change (x ∷ xs) =
      if eqb_ℤ (key x) k then change x ∷ xs else x ∷ upsert_row k new change xs

  unfoldable pub update_row : ℤ → (A → A) → List A → List A
  update_row k change [] = []
  update_row k change (x ∷ xs) =
      if eqb_ℤ (key x) k then change x ∷ xs else x ∷ update_row k change xs

  abbrev pub changed_or : A → (A → A) → Option A → A
  changed_or new change none = new
  changed_or new change (some x) = change x

  pub get_row-key : (k : ℤ) (xs : List A) {x : A} → get_row k xs ≡ some x → key x ≡ k
  unfolding get_row
  get_row-key k [] h = ground arith
  get_row-key k (y ∷ xs) {x} h = ground (arith, get_row-key k xs {x = x}, eqb_ℤ_iff (key y) k)

  pub get_row-upsert_row :
      (k j : ℤ) (new : A) (change : A → A) (xs : List A)
      → key new ≡ k
      → ((x : A) → key (change x) ≡ key x)
      → get_row j (upsert_row k new change xs)
        ≡ (if eqb_ℤ k j then some (changed_or new change (get_row k xs)) else get_row j xs)
  unfolding get_row upsert_row
  get_row-upsert_row k j new change [] e keep = rw e
  get_row-upsert_row k j new change (x ∷ xs) e keep = ground (
    arith,
    keep x,
    eqb_ℤ_iff (key x) k,
    eqb_ℤ_iff (key x) j,
    eqb_ℤ_iff k j,
    get_row-upsert_row k j new change xs e keep,
  )

  pub get_row-update_row_ne :
      (k j : ℤ) (change : A → A) (xs : List A)
      → ((x : A) → key (change x) ≡ key x)
      → eqb_ℤ k j ≡ false
      → get_row j (update_row k change xs) ≡ get_row j xs
  unfolding get_row update_row
  get_row-update_row_ne k j change [] keep h = refl
  get_row-update_row_ne k j change (x ∷ xs) keep h = ground (
    arith,
    keep x,
    eqb_ℤ_iff (key x) k,
    eqb_ℤ_iff (key x) j,
    eqb_ℤ_iff k j,
    get_row-update_row_ne k j change xs keep,
  )

  pub get_row-update_row_self :
      (k : ℤ) (change : A → A) (xs : List A) {x : A}
      → ((x : A) → key (change x) ≡ key x)
      → get_row k xs ≡ some x
      → get_row k (update_row k change xs) ≡ some (change x)
  unfolding get_row update_row
  get_row-update_row_self k change [] keep h = ground arith
  get_row-update_row_self k change (y ∷ xs) {x} keep h =
      ground (arith, keep y, eqb_ℤ_iff (key y) k, get_row-update_row_self k change xs {x = x} keep)
