-- ===== src/Catalog/Stamps.antt =====
-- app/domain/catalog/sync.py: the checkpoints of the sync, the categories, and what the syncs share.
use fembin.Base.{ℕ, Text, Option, none, some, [], ◌∷◌, Bool}
use fembin.Base.Int.{ℤ, pos}
use fembin.Exec.{Exec, modify}
use fembin.Errors.{Exn}
use fembin.Table.Named.{get_named, upsert_named}
use fembin.Db.{Db, SyncState, State, commit}

pub record SyncResult : Type 0 where
  pub entity : Text
  pub changed : ℕ
  pub incremental : Bool
  pub stored : ℕ
  pub failed : ℕ

abbrev pub stamp_of : Option SyncState → ℤ
stamp_of none = pos 0
stamp_of (some row) = row.last_stamp

unfoldable pub get_last_stamp : Text → Db → ℤ
get_last_stamp entity db = stamp_of (get_named (λ r. r.entity) entity db.sync_state)

abbrev pub full_at_of : Option SyncState → Option ℕ
full_at_of none = none
full_at_of (some row) = row.last_full_at

unfoldable pub get_last_full_at : Text → Db → Option ℕ
get_last_full_at entity db = full_at_of (get_named (λ r. r.entity) entity db.sync_state)

unfoldable pub set_last_stamp : Text → ℤ → Db → Db
set_last_stamp entity stamp db = record db {
  sync_state =
      upsert_named (λ r. r.entity) entity
        (record { entity = entity; last_stamp = stamp; last_full_at = none })
        (λ r. record r { last_stamp = stamp }) db.sync_state;
}

unfoldable pub set_last_full_at : Text → ℕ → Db → Db
set_last_full_at entity stamp_at db = record db {
  sync_state =
      upsert_named (λ r. r.entity) entity
        (record { entity = entity; last_stamp = pos 0; last_full_at = some stamp_at })
        (λ r. record r { last_full_at = some stamp_at }) db.sync_state;
}

-- INSERT of a category; an existing one keeps its row
unfoldable pub upsert_category : Text → Db → Db
upsert_category group db = record db {
  categories =
      upsert_named (λ c. c.busy_group_name) group
        (record { busy_group_name = group; woo_category_id = none }) (λ c. c) db.categories;
}

-- row.get(key) or None
abbrev pub or_none : Option Text → Option Text
or_none none = none
or_none (some []) = none
or_none (some (c ∷ t)) = some (c ∷ t)

module _ {W : Type 0} where
  -- statements of the session's transaction
  abbrev pub on_now : {A : Type 0} → Exec Exn Db A → Exec Exn (State W) A
  on_now m s =
      let (r, db) = m s.session.now in (r, record s { session = record s.session { now = db } })

  -- session.commit()
  abbrev pub commit_session : Exec Exn (State W) Unit
  commit_session = modify (λ s. record s { session = commit s.session })
