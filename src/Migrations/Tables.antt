-- ===== src/Migrations/Tables.antt =====
-- alembic/versions: the tables that the migrations make, as they are when made.
use Prim.Native.String.{String}
use fembin.Base.{codes, none, some, List, [], ◌∷◌, Bool, true, false}
use fembin.Migrations.{
  ColumnType, integer, boolean, date_time, json, long_text, string, numeric, enum, mysql_integer,
  mysql_datetime, mysql_varchar, mysql_tinyint, Column, ForeignKey, Unique, TableDef,
}

-- a column without a default of the server
abbrev pub column : String → ColumnType → Bool → Column
column name kind nullable = record {
  name = codes name;
  kind = kind;
  nullable = nullable;
  server_default = none;
}

abbrev pub column_with : String → ColumnType → String → Column
column_with name kind default = record {
  name = codes name;
  kind = kind;
  nullable = false;
  server_default = some (codes default);
}

abbrev pub stamped : String → Column
stamped name = column_with name date_time "now()"

abbrev pub foreign_key : String → String → String → ForeignKey
foreign_key c t to = record { column = codes c; table = codes t; refers_to = codes to }

abbrev pub unique : String → Unique
unique c = record { name = none; column = codes c }

abbrev pub table : String → List Column → List ForeignKey → String → List Unique → TableDef
table name columns foreign_keys primary_key uniques = record {
  name = codes name;
  columns = columns;
  foreign_keys = foreign_keys;
  primary_key = codes primary_key;
  uniques = uniques;
}

abbrev pub categories : TableDef
categories =
    table "categories"
      (column "busy_group_name" (string 255) false ∷ column "woo_category_id" integer true ∷ []) []
      "busy_group_name" []

-- a branch or a salesman of BUSY
abbrev pub busy_master : String → TableDef
busy_master name =
    table name
      (column "busy_code" integer false
        ∷ column "name" (string 255) false
        ∷ column "alias" (string 64) true
        ∷ column "parent_group" (string 255) true
        ∷ column "is_active" boolean false
        ∷ stamped "updated_at"
        ∷ [])
      [] "busy_code" []

abbrev pub sync_state : TableDef
sync_state =
    table "sync_state"
      (column "entity" (string 64) false
        ∷ column "last_stamp" integer false
        ∷ stamped "updated_at"
        ∷ [])
      [] "entity" []

abbrev pub products : TableDef
products =
    table "products"
      (column "busy_code" integer false
        ∷ column "name" (string 255) false
        ∷ column "price" (numeric 14 2) false
        ∷ column "unit" (string 64) false
        ∷ column "item_group" (string 255) false
        ∷ column "tracks_stock" boolean false
        ∷ column "is_active" boolean false
        ∷ column "woo_product_id" integer true
        ∷ stamped "updated_at"
        ∷ [])
      (foreign_key "item_group" "categories" "busy_group_name" ∷ []) "busy_code" []

abbrev pub woo_sync_state : TableDef
woo_sync_state =
    table "woo_sync_state"
      (column "id" integer false
        ∷ column "seeded" boolean false
        ∷ column "last_run_at" date_time true
        ∷ column "last_seeded" integer false
        ∷ column "last_created" integer false
        ∷ column "last_updated" integer false
        ∷ column "last_skipped" integer false
        ∷ column "last_failed" integer false
        ∷ [])
      [] "id" []

abbrev pub outbox_status : ColumnType
outbox_status = enum (codes "QUEUED" ∷ codes "RUNNING" ∷ codes "DONE" ∷ codes "FAILED" ∷ []) 16

abbrev pub outbox : TableDef
outbox =
    table "outbox"
      (column "id" integer false
        ∷ column "job_type" (string 64) false
        ∷ column "payload" json false
        ∷ column "status" outbox_status false
        ∷ column "attempts" integer false
        ∷ column "idempotency_key" (string 128) false
        ∷ column "result" json true
        ∷ column "last_error" long_text true
        ∷ stamped "created_at"
        ∷ stamped "updated_at"
        ∷ [])
      [] "id" (unique "idempotency_key" ∷ [])

abbrev pub users : TableDef
users =
    table "users"
      (column "id" integer false
        ∷ column "username" (string 64) false
        ∷ column "password_hash" (string 255) false
        ∷ column "full_name" (string 255) false
        ∷ column "material_center_code" integer false
        ∷ column "is_active" boolean false
        ∷ stamped "created_at"
        ∷ [])
      (foreign_key "material_center_code" "material_centers" "busy_code" ∷ []) "id"
      (unique "username" ∷ [])

abbrev pub sales_people : TableDef
sales_people =
    table "sales_people"
      (column "id" integer false
        ∷ column "full_name" (string 255) false
        ∷ column "material_center_code" integer false
        ∷ column "is_active" boolean false
        ∷ stamped "created_at"
        ∷ [])
      (foreign_key "material_center_code" "material_centers" "busy_code" ∷ []) "id" []

-- the same table, as it was read back from MySQL
abbrev pub mysql_sales_people : TableDef
mysql_sales_people =
    table "sales_people"
      (column "id" mysql_integer false
        ∷ column "full_name" (mysql_varchar 255) false
        ∷ column "material_center_code" mysql_integer false
        ∷ column "is_active" (mysql_tinyint 1) false
        ∷ column_with "created_at" mysql_datetime "(now())"
        ∷ [])
      (foreign_key "material_center_code" "material_centers" "busy_code" ∷ []) "id" []
