-- ===== src/Db.antt =====
-- app/db/models.py: the tables, and a session over them. A session's statements act on `now`; a
-- commit makes that the state that other sessions see. Columns that the database fills with its
-- own clock (`created_at`, `updated_at`) are left out: the program never reads them to decide.
use fembin.Base.{ℕ, Text, Option, List, Bool}
use fembin.Base.Int.{ℤ}
use fembin.Decimal.{Decimal}
use fembin.Exec.{Exec}
use fembin.Errors.{Exn}

pub record SyncState : Type 0 where
  pub entity : Text
  pub last_stamp : ℤ
  pub last_full_at : Option ℕ

pub record MaterialCenter : Type 0 where
  pub busy_code : ℤ
  pub name : Text
  pub alias : Option Text
  pub parent_group : Option Text
  pub is_active : Bool
  pub vch_series_name : Option Text
  pub vch_no_prefix : Option Text
  pub vch_series_resolved_at : Option ℕ

pub record Category : Type 0 where
  pub busy_group_name : Text
  pub woo_category_id : Option ℤ

pub record Product : Type 0 where
  pub busy_code : ℤ
  pub name : Text
  pub price : Decimal
  pub unit : Text
  pub item_group : Text
  pub tracks_stock : Bool
  pub is_active : Bool
  pub woo_product_id : Option ℤ
  pub woo_synced_price : Option Decimal
  pub woo_synced_name : Option Text
  pub woo_hidden : Bool
  pub barcode : Option Text

pub record User : Type 0 where
  pub id : ℕ
  pub username : Text
  pub password_hash : Text
  pub full_name : Text
  pub material_center_code : ℤ
  pub is_active : Bool
  pub is_superadmin : Bool

pub record Salesman : Type 0 where
  pub busy_code : ℤ
  pub name : Text
  pub alias : Option Text
  pub parent_group : Option Text
  pub is_active : Bool

pub record WooSyncState : Type 0 where
  pub seeded : Bool
  pub last_run_at : Option ℕ
  pub last_seeded : ℕ
  pub last_created : ℕ
  pub last_updated : ℕ
  pub last_skipped : ℕ
  pub last_failed : ℕ

pub record Db : Type 0 where
  pub sync_state : List SyncState
  pub material_centers : List MaterialCenter
  pub categories : List Category
  pub products : List Product
  pub users : List User
  pub next_user_id : ℕ
  pub salesmen : List Salesman
  pub woo_sync_state : Option WooSyncState

pub record Session : Type 0 where
  pub saved : Db
  pub now : Db

abbrev pub commit : Session → Session
commit s = record { saved = s.now; now = s.now }

abbrev pub rollback : Session → Session
rollback s = record { saved = s.saved; now = s.saved }

-- a session and the outside world
pub record State (W : Type 0) : Type 0 where
  pub session : Session
  pub net : W

-- a call to the outside, beside the session
abbrev pub on_net : {W A : Type 0} → Exec Exn W A → Exec Exn (State W) A
on_net m s = let (r, w) = m s.net in (r, record s { net = w })
