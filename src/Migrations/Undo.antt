-- ===== src/Migrations/Undo.antt =====
-- alembic/versions: a downgrade that takes its upgrade back step by step, last step first.
use mathlib.Core.Path.{subst}
use mathlib.Core.Option.{some-injective}
use fembin.Base.{
  ◌≡◌, refl, ap, Text, codes, text_eq, text_eq_iff, Option, none, some, List, [], ◌∷◌, ◌++◌, Bool,
  true, false, if◌then◌else◌, arith,
}
use fembin.Migrations.{
  Op, create_table, drop_table, add_column, drop_column, create_unique_constraint, drop_constraint,
  TableDef, Column, add_named, drop_named, cons_some, on_table, added_column, dropped_column,
  set_columns, with_columns, apply, run,
}
use fembin.Migrations.Revisions.{
  Revision, initial_empty_revision, catalog_tables, woocommerce_sync_state, outbox_queue_table,
  users_table, superadmin_flag, salesmen_table, last_full_at_of_sync_state,
  woo_name_and_hidden_tracking, resolved_voucher_series, upgrade, downgrade,
}

-- an operation that only adds a table or a column
abbrev pub adds : Op → Bool
adds (create_table t) = true
adds (add_column k c) = true
adds _ = false

abbrev inverse : Op → Op
inverse (create_table t) = drop_table t.name
inverse (add_column k c) = drop_column k c.name
inverse op = op

all_add : List Op → Bool
all_add [] = true
all_add (op ∷ ops) = if adds op then all_add ops else false

undo : List Op → List Op
undo [] = []
undo (op ∷ ops) = undo ops ++ inverse op ∷ []

module _ {A : Type 0} (key : A → Text) where
  drop_named-kept :
      (b : Bool) (x : A) (xs : List A) (o : Option (List A)) (k : Text) (ys : List A)
      → text_eq (key x) k ≡ b
      → ((zs : List A) → o ≡ some zs → drop_named key k zs ≡ some xs)
      → (if b then none else cons_some x o) ≡ some ys
      → drop_named key k ys ≡ some (x ∷ xs)
  unfolding drop_named
  drop_named-kept true x xs o k ys e ih h = ground (arith, h)
  drop_named-kept false x xs none k ys e ih h = ground (arith, h)
  drop_named-kept false x xs (some zs) k ys e ih h = ground (arith, e, ih zs refl, h)

  drop_named-add_named :
      (new : A) (xs ys : List A)
      → add_named key new xs ≡ some ys
      → drop_named key (key new) ys ≡ some xs
  unfolding add_named drop_named
  drop_named-add_named new [] ys h = ground (arith, h, text_eq_iff (key new) (key new))
  drop_named-add_named new (x ∷ xs) ys h =
      drop_named-kept (text_eq (key x) (key new)) x xs (add_named key new xs) (key new) ys refl
        (drop_named-add_named new xs) h

module _ (f g : TableDef → Option TableDef) (k : Text)
    (back : (t t' : TableDef) → f t ≡ some t' → g t' ≡ some t)
    (keeps : (t t' : TableDef) → f t ≡ some t' → t'.name ≡ t.name) where
  on_table-kept :
      (b : Bool) (t : TableDef) (ts : List TableDef) (u : Option TableDef)
      (o : Option (List TableDef)) (ys : List TableDef)
      → text_eq t.name k ≡ b
      → f t ≡ u
      → ((zs : List TableDef) → o ≡ some zs → on_table k g zs ≡ some ts)
      → (if b then elim u [ none ↦ none | some t' ↦ some (t' ∷ ts) ] else cons_some t o) ≡ some ys
      → on_table k g ys ≡ some (t ∷ ts)
  unfolding on_table
  on_table-kept true t ts none o ys e fu ih h = ground (arith, h)
  on_table-kept true t ts (some t') o ys e fu ih h =
      ground (arith, e, keeps t t' fu, back t t' fu, h)
  on_table-kept false t ts u none ys e fu ih h = ground (arith, h)
  on_table-kept false t ts u (some zs) ys e fu ih h = ground (arith, e, ih zs refl, h)

  on_table_back : (s s' : List TableDef) → on_table k f s ≡ some s' → on_table k g s' ≡ some s
  unfolding on_table
  on_table_back [] s' h = ground (arith, h)
  on_table_back (t ∷ ts) s' h =
      on_table-kept (text_eq t.name k) t ts (f t) (on_table k f ts) s' refl refl (on_table_back ts)
        h

module _ (c : Column) (t : TableDef) where
  added_back :
      (o : Option (List Column)) (t' : TableDef)
      → add_named (λ c. c.name) c t.columns ≡ o
      → set_columns t o ≡ some t'
      → (dropped_column c.name t' ≡ some t) × (t'.name ≡ t.name)
  added_back none t' e h = ground (arith, h)
  added_back (some cs) t' e h =
      subst (λ t'. (dropped_column c.name t' ≡ some t) × (t'.name ≡ t.name)) (some-injective _ t' h)
        (
          ap (set_columns (with_columns t cs))
              (drop_named-add_named (λ c. c.name) c t.columns cs e),
          refl,
        )

apply_back :
    (op : Op) (s s' : List TableDef)
    → adds op ≡ true
    → apply op s ≡ some s'
    → apply (inverse op) s' ≡ some s
unfolding apply
apply_back (create_table t) s s' a h = drop_named-add_named (λ t. t.name) t s s' h
apply_back (add_column k c) s s' a h =
    on_table_back (added_column c) (dropped_column c.name) k
      (λ t t' e. (added_back c t _ t' refl e).0) (λ t t' e. (added_back c t _ t' refl e).1) s s' h
apply_back (drop_table k) s s' a h = ground (arith, a)
apply_back (drop_column k c) s s' a h = ground (arith, a)
apply_back (create_unique_constraint k u) s s' a h = ground (arith, a)
apply_back (drop_constraint n k) s s' a h = ground (arith, a)

-- an operation behind a list of them
run-++ :
    (ops : List Op) (op : Op) (s t r : List TableDef)
    → run ops s ≡ some t
    → apply op t ≡ some r
    → run (ops ++ op ∷ []) s ≡ some r
unfolding run
run-++ [] op s t r h a = ground (arith, h, a)
run-++ (o ∷ ops) op s t r h a = run_first (apply o s) h (λ v e. run-++ ops op v t r e a)
  where
    run_first :
        (u : Option (List TableDef))
        → elim u [ none ↦ none | some v ↦ run ops v ] ≡ some t
        → ((v : List TableDef) → run ops v ≡ some t → run (ops ++ op ∷ []) v ≡ some r)
        → elim u [ none ↦ none | some v ↦ run (ops ++ op ∷ []) v ] ≡ some r
    run_first none e more = ground (arith, e)
    run_first (some v) e more = more v e

run-undo :
    (ops : List Op) (s s' : List TableDef)
    → all_add ops ≡ true
    → run ops s ≡ some s'
    → run (undo ops) s' ≡ some s
unfolding run all_add undo
run-undo [] s s' a h = ground (arith, h)
run-undo (op ∷ ops) s s' a h =
    step (apply op s) refl h (λ v e. run-undo ops v s' (ground (arith, a)) e)
  where
    step :
        (u : Option (List TableDef))
        → apply op s ≡ u
        → elim u [ none ↦ none | some v ↦ run ops v ] ≡ some s'
        → ((v : List TableDef) → run ops v ≡ some s' → run (undo ops) s' ≡ some v)
        → run (undo ops ++ inverse op ∷ []) s' ≡ some s
    step none e h more = ground (arith, h)
    step (some v) e h more =
        run-++ (undo ops) (inverse op) s' v s (more v h) (apply_back op s v (ground (arith, a)) e)

-- revisions whose upgrades add only tables and columns
unfoldable pub is_additive : Revision → Bool
unfolding upgrade all_add
is_additive r = all_add (upgrade r)

undo-upgrade : (r : Revision) → is_additive r ≡ true → undo (upgrade r) ≡ downgrade r
unfolding is_additive upgrade downgrade undo all_add
undo-upgrade initial_empty_revision h = refl
undo-upgrade catalog_tables h = refl
undo-upgrade woocommerce_sync_state h = refl
undo-upgrade outbox_queue_table h = refl
undo-upgrade users_table h = refl
undo-upgrade superadmin_flag h = ground (arith, h)
undo-upgrade salesmen_table h = ground (arith, h)
undo-upgrade last_full_at_of_sync_state h = refl
undo-upgrade woo_name_and_hidden_tracking h = refl
undo-upgrade resolved_voucher_series h = refl

-- If a revision's upgrade only adds tables and columns, as all do but those of the superadmin flag
-- and of the salesmen, and the database takes it, then its downgrade gives back exactly the schema
-- from before.
pub downgrade-upgrade :
    (r : Revision) (s s' : List TableDef)
    → is_additive r ≡ true
    → run (upgrade r) s ≡ some s'
    → run (downgrade r) s' ≡ some s
unfolding is_additive
downgrade-upgrade r s s' a h =
    subst (λ ops. run ops s' ≡ some s) (undo-upgrade r a) (run-undo (upgrade r) s s' a h)

run_unnamed :
    (k : Text) (ops : List Op) (u : Option (List TableDef))
    → elim u [ none ↦ none | some s ↦ run (drop_constraint none k ∷ ops) s ] ≡ none
unfolding run apply
run_unnamed k ops none = refl
run_unnamed k ops (some s) = refl

-- the unnamed constraint on the barcode stops the downgrade that would drop it
superadmin_flag_stays : (s : List TableDef) → run (downgrade superadmin_flag) s ≡ none
unfolding downgrade run
superadmin_flag_stays s =
    run_unnamed (codes "products")
      (drop_column (codes "products") (codes "barcode") ∷ drop_table (codes "sales_people") ∷ [])
      (apply (drop_column (codes "users") (codes "is_superadmin")) s)
