-- ===== src/Table/Named.antt =====
-- SQL tables whose primary key is a text, compared exactly.
use fembin.Base.{
  ◌≡◌, Text, text_eq, text_eq_iff, Option, none, some, List, [], ◌∷◌, if◌then◌else◌, arith,
}

module _ {A : Type 0} (key : A → Text) where
  unfoldable pub get_named : Text → List A → Option A
  get_named k [] = none
  get_named k (x ∷ xs) = if text_eq (key x) k then some x else get_named k xs

  unfoldable pub upsert_named : Text → A → (A → A) → List A → List A
  upsert_named k new change [] = new ∷ []
  upsert_named k new change (x ∷ xs) =
      if text_eq (key x) k then change x ∷ xs else x ∷ upsert_named k new change xs

  abbrev pub changed_or : A → (A → A) → Option A → A
  changed_or new change none = new
  changed_or new change (some x) = change x

  pub get_named-upsert_named :
      (k j : Text) (new : A) (change : A → A) (xs : List A)
      → key new ≡ k
      → ((x : A) → key (change x) ≡ key x)
      → get_named j (upsert_named k new change xs)
        ≡ (if text_eq k j then some (changed_or new change (get_named k xs)) else get_named j xs)
  unfolding get_named upsert_named
  get_named-upsert_named k j new change [] e keep = rw e
  get_named-upsert_named k j new change (x ∷ xs) e keep = ground (
    arith,
    keep x,
    text_eq_iff (key x) k,
    text_eq_iff (key x) j,
    text_eq_iff k j,
    get_named-upsert_named k j new change xs e keep,
  )
