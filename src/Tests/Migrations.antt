-- ===== src/Tests/Migrations.antt =====
-- The migrations at small schemas.
use fembin.Base.{◌≡◌, refl, codes, text_eq, none, some, List, [], ◌∷◌, true}
use fembin.Migrations.{TableDef, if_some, run, apply, add_named, on_table}
use fembin.Migrations.Tables.{categories, products}
use fembin.Migrations.Revisions.{woocommerce_sync_state, users_table, upgrade, downgrade}
use fembin.Migrations.Undo.{is_additive, downgrade-upgrade}
use fembin.Migrations.Head.{upgrade_to-metadata, upgrade_to, base, head, is_current}

abbrev small : List TableDef
small = categories ∷ products ∷ []

abbrev grown : List TableDef
grown = elim (run (upgrade woocommerce_sync_state) small) [ none ↦ [] | some s ↦ s ]

grows : run (upgrade woocommerce_sync_state) small ≡ some grown
unfolding run upgrade apply add_named on_table text_eq codes
grows = refl

downgrade-upgrade_example : run (downgrade woocommerce_sync_state) grown ≡ some small
unfolding is_additive
downgrade-upgrade_example = downgrade-upgrade woocommerce_sync_state small grown refl grows

upgrade_to-metadata_example :
    is_current (if_some (upgrade_to head) (upgrade_to (some users_table) base)) ≡ true
upgrade_to-metadata_example = upgrade_to-metadata (some users_table)
