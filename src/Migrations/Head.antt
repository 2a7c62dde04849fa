-- ===== src/Migrations/Head.antt =====
-- alembic upgrade head: from wherever a database stands to the newest revision.
use fembin.Base.{
  ℕ, zero, suc, ◌≡◌, refl, codes, text_eq, Option, none, some, List, [], ◌∷◌, Bool, true, false,
  ◌&&◌,
}
use fembin.Migrations.{TableDef, if_some, run, apply, add_named, drop_named, on_table}
use fembin.Migrations.Revisions.{
  Revision, initial_empty_revision, catalog_tables, woocommerce_sync_state, outbox_queue_table,
  users_table, superadmin_flag, salesmen_table, last_full_at_of_sync_state,
  woo_name_and_hidden_tracking, resolved_voucher_series, revision, down_revision, upgrade,
}
use fembin.Migrations.Metadata.{has_metadata}

-- a database with the revision that is stamped on it
pub record Database : Type 0 where
  pub version : Option Revision
  pub tables : List TableDef

abbrev pub base : Database
base = record { version = none; tables = [] }

abbrev pub is_at : Option Revision → Option Revision → Bool
is_at none none = true
is_at (some r) (some q) = text_eq (revision r) (revision q)
is_at _ _ = false

-- the revisions above `current` up to `target`, lowest first
unfoldable pub steps_above :
    ℕ → (target current : Option Revision) → List Revision → Option (List Revision)
steps_above zero target current above = none
steps_above (suc fuel) target current above = elim (is_at target current) [
  | true ↦ some above
  | false ↦ elim target [
    | none ↦ none
    | some r ↦ steps_above fuel (down_revision r) current (r ∷ above)
  ]
]

unfoldable pub upgrade_all : List Revision → Database → Option Database
upgrade_all [] db = some db
upgrade_all (r ∷ rs) db = elim (run (upgrade r) db.tables) [
  | none ↦ none
  | some tables ↦ upgrade_all rs (record { version = some r; tables = tables })
]

-- there are ten revisions
unfoldable pub upgrade_to : Option Revision → Database → Option Database
upgrade_to target db = if_some (λ rs. upgrade_all rs db) (steps_above 11 target db.version [])

abbrev pub head : Option Revision
head = some resolved_voucher_series

-- stamped as the newest, with the tables of the models
abbrev pub is_current : Option Database → Bool
is_current none = false
is_current (some db) = is_at db.version head && has_metadata db.tables

-- From an empty database, and from one at any revision of the history, an upgrade to the head
-- succeeds and ends, stamped as the head, with the tables that the models declare.
pub upgrade_to-metadata :
    (r : Option Revision) → is_current (if_some (upgrade_to head) (upgrade_to r base)) ≡ true
unfolding upgrade_to steps_above upgrade_all down_revision run upgrade apply add_named text_eq codes
    on_table drop_named revision has_metadata
upgrade_to-metadata none = refl
upgrade_to-metadata (some initial_empty_revision) = refl
upgrade_to-metadata (some catalog_tables) = refl
upgrade_to-metadata (some woocommerce_sync_state) = refl
upgrade_to-metadata (some outbox_queue_table) = refl
upgrade_to-metadata (some users_table) = refl
upgrade_to-metadata (some superadmin_flag) = refl
upgrade_to-metadata (some salesmen_table) = refl
upgrade_to-metadata (some last_full_at_of_sync_state) = refl
upgrade_to-metadata (some woo_name_and_hidden_tracking) = refl
upgrade_to-metadata (some resolved_voucher_series) = refl
