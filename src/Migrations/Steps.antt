-- ===== src/Migrations/Steps.antt =====
-- alembic/versions: what each revision does up and down.
use fembin.Base.{codes, none, List, [], ◌∷◌, true, false}
use fembin.Migrations.{
  boolean, date_time, string, numeric, Op, create_table, drop_table, add_column, drop_column,
  create_unique_constraint, drop_constraint,
}
use fembin.Migrations.Tables.{
  column, column_with, unique, categories, busy_master, sync_state, products, woo_sync_state,
  outbox, users, sales_people, mysql_sales_people,
}

abbrev pub upgrade_initial_empty_revision : List Op
upgrade_initial_empty_revision = []

abbrev pub downgrade_initial_empty_revision : List Op
downgrade_initial_empty_revision = []

abbrev pub upgrade_catalog_tables : List Op
upgrade_catalog_tables =
    create_table categories
    ∷ create_table (busy_master "material_centers")
    ∷ create_table sync_state
    ∷ create_table products
    ∷ []

abbrev pub downgrade_catalog_tables : List Op
downgrade_catalog_tables =
    drop_table (codes "products")
    ∷ drop_table (codes "sync_state")
    ∷ drop_table (codes "material_centers")
    ∷ drop_table (codes "categories")
    ∷ []

abbrev pub upgrade_woocommerce_sync_state : List Op
upgrade_woocommerce_sync_state =
    create_table woo_sync_state
    ∷ add_column (codes "products") (column "woo_synced_price" (numeric 14 2) true)
    ∷ []

abbrev pub downgrade_woocommerce_sync_state : List Op
downgrade_woocommerce_sync_state =
    drop_column (codes "products") (codes "woo_synced_price")
    ∷ drop_table (codes "woo_sync_state")
    ∷ []

abbrev pub upgrade_outbox_queue_table : List Op
upgrade_outbox_queue_table = create_table outbox ∷ []

abbrev pub downgrade_outbox_queue_table : List Op
downgrade_outbox_queue_table = drop_table (codes "outbox") ∷ []

abbrev pub upgrade_users_table : List Op
upgrade_users_table = create_table users ∷ []

abbrev pub downgrade_users_table : List Op
downgrade_users_table = drop_table (codes "users") ∷ []

abbrev pub upgrade_superadmin_flag : List Op
upgrade_superadmin_flag =
    create_table sales_people
    ∷ add_column (codes "products") (column "barcode" (string 64) true)
    ∷ create_unique_constraint (codes "products") (unique "barcode")
    ∷ add_column (codes "users") (column "is_superadmin" boolean false)
    ∷ []

abbrev pub downgrade_superadmin_flag : List Op
downgrade_superadmin_flag =
    drop_column (codes "users") (codes "is_superadmin")
    ∷ drop_constraint none (codes "products")
    ∷ drop_column (codes "products") (codes "barcode")
    ∷ drop_table (codes "sales_people")
    ∷ []

abbrev pub upgrade_salesmen_table : List Op
upgrade_salesmen_table =
    create_table (busy_master "salesmen") ∷ drop_table (codes "sales_people") ∷ []

abbrev pub downgrade_salesmen_table : List Op
downgrade_salesmen_table = create_table mysql_sales_people ∷ drop_table (codes "salesmen") ∷ []

abbrev pub upgrade_last_full_at_of_sync_state : List Op
upgrade_last_full_at_of_sync_state =
    add_column (codes "sync_state") (column "last_full_at" date_time true) ∷ []

abbrev pub downgrade_last_full_at_of_sync_state : List Op
downgrade_last_full_at_of_sync_state = drop_column (codes "sync_state") (codes "last_full_at") ∷ []

abbrev pub upgrade_woo_name_and_hidden_tracking : List Op
upgrade_woo_name_and_hidden_tracking =
    add_column (codes "products") (column "woo_synced_name" (string 255) true)
    ∷ add_column (codes "products") (column_with "woo_hidden" boolean "0")
    ∷ []

abbrev pub downgrade_woo_name_and_hidden_tracking : List Op
downgrade_woo_name_and_hidden_tracking =
    drop_column (codes "products") (codes "woo_hidden")
    ∷ drop_column (codes "products") (codes "woo_synced_name")
    ∷ []

abbrev pub upgrade_resolved_voucher_series : List Op
upgrade_resolved_voucher_series =
    add_column (codes "material_centers") (column "vch_series_name" (string 255) true)
    ∷ add_column (codes "material_centers") (column "vch_no_prefix" (string 32) true)
    ∷ add_column (codes "material_centers") (column "vch_series_resolved_at" date_time true)
    ∷ []

abbrev pub downgrade_resolved_voucher_series : List Op
downgrade_resolved_voucher_series =
    drop_column (codes "material_centers") (codes "vch_series_resolved_at")
    ∷ drop_column (codes "material_centers") (codes "vch_no_prefix")
    ∷ drop_column (codes "material_centers") (codes "vch_series_name")
    ∷ []
