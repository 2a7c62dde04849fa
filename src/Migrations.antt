-- ===== src/Migrations.antt =====
-- alembic: a schema of tables, and the operations of the migrations on it. `none` is an operation
-- that the database refuses; foreign keys and indexes do not make it refuse one here, and the numbering of ids
-- and the names and the engine of MySQL's own are left out.
pub mod Tables
pub mod Steps
pub mod Revisions
pub mod Metadata
pub mod Undo
pub mod Head
use fembin.Base.{
  ℕ, Text, text_eq, Option, none, some, List, [], ◌∷◌, ◌++◌, Bool, false, if◌then◌else◌,
}

-- types of SQLAlchemy, and the spellings that its MySQL dialect has for some
pub data ColumnType : Type 0 where
  integer boolean date_time json long_text : ColumnType
  string : ℕ → ColumnType
  numeric : ℕ → ℕ → ColumnType
  enum : List Text → ℕ → ColumnType
  mysql_integer mysql_datetime : ColumnType
  mysql_varchar mysql_tinyint : ℕ → ColumnType

pub record Column : Type 0 where
  pub name : Text
  pub kind : ColumnType
  pub nullable : Bool
  pub server_default : Option Text

-- a column, and the table and the column that it refers to
pub record ForeignKey : Type 0 where
  pub column : Text
  pub table : Text
  pub refers_to : Text

-- a constraint that the code gives no name has `none`
pub record Unique : Type 0 where
  pub name : Option Text
  pub column : Text

pub record TableDef : Type 0 where
  pub name : Text
  pub columns : List Column
  pub foreign_keys : List ForeignKey
  pub primary_key : Text
  pub uniques : List Unique

pub data Op : Type 0 where
  create_table : TableDef → Op
  drop_table : Text → Op
  add_column : Text → Column → Op
  drop_column : Text → Text → Op
  create_unique_constraint : Text → Unique → Op
  drop_constraint : Option Text → Text → Op

abbrev pub if_some : {A B : Type 0} → (A → Option B) → Option A → Option B
if_some f none = none
if_some f (some a) = f a

abbrev pub cons_some : {A : Type 0} → A → Option (List A) → Option (List A)
cons_some a none = none
cons_some a (some l) = some (a ∷ l)

module _ {A : Type 0} (key : A → Text) where
  -- at the end, unless the name is taken
  unfoldable pub add_named : A → List A → Option (List A)
  add_named new [] = some (new ∷ [])
  add_named new (x ∷ xs) =
      if text_eq (key x) (key new) then none else cons_some x (add_named new xs)

  unfoldable pub drop_named : Text → List A → Option (List A)
  drop_named k [] = none
  drop_named k (x ∷ xs) = if text_eq (key x) k then some xs else cons_some x (drop_named k xs)

unfoldable pub on_table :
    Text → (TableDef → Option TableDef) → List TableDef → Option (List TableDef)
on_table k f [] = none
on_table k f (t ∷ ts) =
    if text_eq t.name k
    then elim (f t) [ none ↦ none | some t' ↦ some (t' ∷ ts) ]
    else cons_some t (on_table k f ts)

abbrev pub with_columns : TableDef → List Column → TableDef
with_columns t columns = record t { columns = columns }

abbrev pub set_columns : TableDef → Option (List Column) → Option TableDef
set_columns t none = none
set_columns t (some columns) = some (with_columns t columns)

abbrev pub added_column : Column → TableDef → Option TableDef
added_column c t = set_columns t (add_named (λ c. c.name) c t.columns)

abbrev pub dropped_column : Text → TableDef → Option TableDef
dropped_column k t = set_columns t (drop_named (λ c. c.name) k t.columns)

abbrev pub with_unique : Unique → TableDef → Option TableDef
with_unique u t = some (record t { uniques = t.uniques ++ u ∷ [] })

abbrev same_name : Text → Option Text → Bool
same_name k none = false
same_name k (some n) = text_eq n k

drop_unique : Text → List Unique → Option (List Unique)
drop_unique k [] = none
drop_unique k (u ∷ us) = if same_name k u.name then some us else cons_some u (drop_unique k us)

abbrev set_uniques : TableDef → Option (List Unique) → Option TableDef
set_uniques t none = none
set_uniques t (some uniques) = some (record t { uniques = uniques })

unfoldable pub apply : Op → List TableDef → Option (List TableDef)
unfolding drop_unique
apply (create_table t) s = add_named (λ t. t.name) t s
apply (drop_table k) s = drop_named (λ t. t.name) k s
apply (add_column k c) s = on_table k (added_column c) s
apply (drop_column k c) s = on_table k (dropped_column c) s
apply (create_unique_constraint k u) s = on_table k (with_unique u) s
-- without a name no statement can be written that drops it
apply (drop_constraint none k) s = none
apply (drop_constraint (some n) k) s = on_table k (λ t. set_uniques t (drop_unique n t.uniques)) s

-- the operations of a function, in their order
unfoldable pub run : List Op → List TableDef → Option (List TableDef)
run [] s = some s
run (op ∷ ops) s = elim (apply op s) [ none ↦ none | some t ↦ run ops t ]
