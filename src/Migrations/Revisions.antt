-- ===== src/Migrations/Revisions.antt =====
-- alembic/versions: the history of the revisions.
use fembin.Base.{Text, codes, Option, none, some, List}
use fembin.Migrations.{Op}
use fembin.Migrations.Steps.{
  upgrade_initial_empty_revision, downgrade_initial_empty_revision, upgrade_catalog_tables,
  downgrade_catalog_tables, upgrade_woocommerce_sync_state, downgrade_woocommerce_sync_state,
  upgrade_outbox_queue_table, downgrade_outbox_queue_table, upgrade_users_table,
  downgrade_users_table, upgrade_superadmin_flag, downgrade_superadmin_flag, upgrade_salesmen_table,
  downgrade_salesmen_table, upgrade_last_full_at_of_sync_state,
  downgrade_last_full_at_of_sync_state, upgrade_woo_name_and_hidden_tracking,
  downgrade_woo_name_and_hidden_tracking, upgrade_resolved_voucher_series,
  downgrade_resolved_voucher_series,
}

-- in the order of the history
pub data Revision : Type 0 where
  initial_empty_revision catalog_tables woocommerce_sync_state outbox_queue_table : Revision
  users_table superadmin_flag salesmen_table last_full_at_of_sync_state : Revision
  woo_name_and_hidden_tracking resolved_voucher_series : Revision

unfoldable pub revision : Revision → Text
revision initial_empty_revision = codes "6155386a8342"
revision catalog_tables = codes "2d40d2364edc"
revision woocommerce_sync_state = codes "2d0515b8dc93"
revision outbox_queue_table = codes "f1a37ddc7f78"
revision users_table = codes "86a947ed853f"
revision superadmin_flag = codes "75555db237c1"
revision salesmen_table = codes "c90dd2905fbc"
revision last_full_at_of_sync_state = codes "0a1b2c3d4e5f"
revision woo_name_and_hidden_tracking = codes "b3e9f71a2c4d"
revision resolved_voucher_series = codes "27c5dba7056c"

unfoldable pub down_revision : Revision → Option Revision
down_revision initial_empty_revision = none
down_revision catalog_tables = some initial_empty_revision
down_revision woocommerce_sync_state = some catalog_tables
down_revision outbox_queue_table = some woocommerce_sync_state
down_revision users_table = some outbox_queue_table
down_revision superadmin_flag = some users_table
down_revision salesmen_table = some superadmin_flag
down_revision last_full_at_of_sync_state = some salesmen_table
down_revision woo_name_and_hidden_tracking = some last_full_at_of_sync_state
down_revision resolved_voucher_series = some woo_name_and_hidden_tracking

unfoldable pub upgrade : Revision → List Op
upgrade initial_empty_revision = upgrade_initial_empty_revision
upgrade catalog_tables = upgrade_catalog_tables
upgrade woocommerce_sync_state = upgrade_woocommerce_sync_state
upgrade outbox_queue_table = upgrade_outbox_queue_table
upgrade users_table = upgrade_users_table
upgrade superadmin_flag = upgrade_superadmin_flag
upgrade salesmen_table = upgrade_salesmen_table
upgrade last_full_at_of_sync_state = upgrade_last_full_at_of_sync_state
upgrade woo_name_and_hidden_tracking = upgrade_woo_name_and_hidden_tracking
upgrade resolved_voucher_series = upgrade_resolved_voucher_series

unfoldable pub downgrade : Revision → List Op
downgrade initial_empty_revision = downgrade_initial_empty_revision
downgrade catalog_tables = downgrade_catalog_tables
downgrade woocommerce_sync_state = downgrade_woocommerce_sync_state
downgrade outbox_queue_table = downgrade_outbox_queue_table
downgrade users_table = downgrade_users_table
downgrade superadmin_flag = downgrade_superadmin_flag
downgrade salesmen_table = downgrade_salesmen_table
downgrade last_full_at_of_sync_state = downgrade_last_full_at_of_sync_state
downgrade woo_name_and_hidden_tracking = downgrade_woo_name_and_hidden_tracking
downgrade resolved_voucher_series = downgrade_resolved_voucher_series
