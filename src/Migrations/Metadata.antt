-- ===== src/Migrations/Metadata.antt =====
-- app/db/models.py and app/outbox/models.py: the tables that the ORM's models declare, and when a
-- schema has them. Neither the order of tables and columns counts nor the server's defaults.
use fembin.Base.{
  Text, text_eq, Option, none, some, List, [], ◌∷◌, Bool, true, false, ◌&&◌, ◌==◌, length,
}
use fembin.Table.Named.{get_named}
use fembin.Migrations.{
  ColumnType, integer, boolean, date_time, json, long_text, string, numeric, enum, mysql_integer,
  mysql_datetime, mysql_varchar, mysql_tinyint, Column, ForeignKey, TableDef,
}
use fembin.Migrations.Tables.{column, stamped, foreign_key, unique, table, outbox_status}

abbrev sync_state : TableDef
sync_state =
    table "sync_state"
      (column "entity" (string 64) false
        ∷ column "last_stamp" integer false
        ∷ column "last_full_at" date_time true
        ∷ stamped "updated_at"
        ∷ [])
      [] "entity" []

abbrev material_center : TableDef
material_center =
    table "material_centers"
      (column "busy_code" integer false
        ∷ column "name" (string 255) false
        ∷ column "alias" (string 64) true
        ∷ column "parent_group" (string 255) true
        ∷ column "is_active" boolean false
        ∷ column "vch_series_name" (string 255) true
        ∷ column "vch_no_prefix" (string 32) true
        ∷ column "vch_series_resolved_at" date_time true
        ∷ stamped "updated_at"
        ∷ [])
      [] "busy_code" []

abbrev category : TableDef
category =
    table "categories"
      (column "busy_group_name" (string 255) false ∷ column "woo_category_id" integer true ∷ []) []
      "busy_group_name" []

abbrev product : TableDef
product =
    table "products"
      (column "busy_code" integer false
        ∷ column "name" (string 255) false
        ∷ column "price" (numeric 14 2) false
        ∷ column "unit" (string 64) false
        ∷ column "item_group" (string 255) false
        ∷ column "tracks_stock" boolean false
        ∷ column "is_active" boolean false
        ∷ column "woo_product_id" integer true
        ∷ column "woo_synced_price" (numeric 14 2) true
        ∷ column "woo_synced_name" (string 255) true
        ∷ column "woo_hidden" boolean false
        ∷ column "barcode" (string 64) true
        ∷ stamped "updated_at"
        ∷ [])
      (foreign_key "item_group" "categories" "busy_group_name" ∷ []) "busy_code"
      (unique "barcode" ∷ [])

abbrev user : TableDef
user =
    table "users"
      (column "id" integer false
        ∷ column "username" (string 64) false
        ∷ column "password_hash" (string 255) false
        ∷ column "full_name" (string 255) false
        ∷ column "material_center_code" integer false
        ∷ column "is_active" boolean false
        ∷ column "is_superadmin" boolean false
        ∷ stamped "created_at"
        ∷ [])
      (foreign_key "material_center_code" "material_centers" "busy_code" ∷ []) "id"
      (unique "username" ∷ [])

abbrev salesman : TableDef
salesman =
    table "salesmen"
      (column "busy_code" integer false
        ∷ column "name" (string 255) false
        ∷ column "alias" (string 64) true
        ∷ column "parent_group" (string 255) true
        ∷ column "is_active" boolean false
        ∷ stamped "updated_at"
        ∷ [])
      [] "busy_code" []

abbrev woo_sync_state : TableDef
woo_sync_state =
    table "woo_sync_state"
      (column "id" integer false
        ∷ column "seeded" boolean false
        ∷ column "last_run_at" date_time true
        ∷ column "last_seeded" integer false
        ∷ column "last_created" integer false
        ∷ column "last_updated" integer false
        ∷ column "last_skipped" integer false
        ∷ column "last_failed" integer false
        ∷ [])
      [] "id" []

abbrev outbox_job : TableDef
outbox_job =
    table "outbox"
      (column "id" integer false
        ∷ column "job_type" (string 64) false
        ∷ column "payload" json false
        ∷ column "status" outbox_status false
        ∷ column "attempts" integer false
        ∷ column "idempotency_key" (string 128) false
        ∷ column "result" json true
        ∷ column "last_error" long_text true
        ∷ stamped "created_at"
        ∷ stamped "updated_at"
        ∷ [])
      [] "id" (unique "idempotency_key" ∷ [])

-- Base.metadata
unfoldable pub metadata : List TableDef
metadata =
    sync_state ∷ material_center ∷ category ∷ product ∷ user ∷ salesman ∷ woo_sync_state
    ∷ outbox_job ∷ []

texts_eq : List Text → List Text → Bool
texts_eq [] [] = true
texts_eq (s ∷ ss) (t ∷ ts) = text_eq s t && texts_eq ss ts
texts_eq _ _ = false

unfoldable pub kind_eq : ColumnType → ColumnType → Bool
unfolding texts_eq
kind_eq integer integer = true
kind_eq boolean boolean = true
kind_eq date_time date_time = true
kind_eq json json = true
kind_eq long_text long_text = true
kind_eq (string m) (string n) = m == n
kind_eq (numeric m j) (numeric n k) = m == n && j == k
kind_eq (enum ss m) (enum ts n) = texts_eq ss ts && m == n
kind_eq mysql_integer mysql_integer = true
kind_eq mysql_datetime mysql_datetime = true
kind_eq (mysql_varchar m) (mysql_varchar n) = m == n
kind_eq (mysql_tinyint m) (mysql_tinyint n) = m == n
kind_eq _ _ = false

abbrev bool_eq : Bool → Bool → Bool
bool_eq true true = true
bool_eq false false = true
bool_eq _ _ = false

module _ {A : Type 0} (key : A → Text) (agree : A → A → Bool) where
  abbrev found : A → Option A → Bool
  found x none = false
  found x (some y) = agree x y

  all_found : List A → List A → Bool
  all_found [] ys = true
  all_found (x ∷ xs) ys = found x (get_named key (key x) ys) && all_found xs ys

  -- the same names, with things that agree
  unfoldable pub same_named : List A → List A → Bool
  unfolding all_found get_named
  same_named xs ys = length xs == length ys && all_found xs ys

abbrev same_column : Column → Column → Bool
same_column a b = kind_eq a.kind b.kind && bool_eq a.nullable b.nullable

abbrev same_reference : ForeignKey → ForeignKey → Bool
same_reference a b = text_eq a.table b.table && text_eq a.refers_to b.refers_to

abbrev same_table : TableDef → TableDef → Bool
same_table a b =
    same_named (λ c. c.name) same_column a.columns b.columns
    && same_named (λ f. f.column) same_reference a.foreign_keys b.foreign_keys
    && text_eq a.primary_key b.primary_key
    && same_named (λ u. u.column) (λ u v. true) a.uniques b.uniques

unfoldable pub has_metadata : List TableDef → Bool
unfolding metadata same_named kind_eq
has_metadata s = same_named (λ t. t.name) same_table metadata s
