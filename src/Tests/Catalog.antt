-- ===== src/Tests/Catalog.antt =====
-- The catalog's sync at a session with one product and a server with an active and a blocked item.
use fembin.Base.{
  ◌∷◌, [], text_eq, text_eq_refl, ◌≢◌, ◌≤◌, arith, ◌≡◌, refl, codes, some, false, Text, List, Bool,
  none, true,
}
use fembin.Exec.{ok}
use fembin.Db.{State, Session}
use fembin.Catalog.Products.{
  sync_products, batched, fetch_batch, fetch_detail, finish, plan, scan_rows, store_active,
  store_batches, store_details, store_fetched, store_products,
}
use fembin.Catalog.Products.Atomic.{is_some, sync_products_atomic}
use fembin.Catalog.Products.Local.{Kept}
use fembin.Catalog.Products.Keeps.{sync_products_keeps}
use fembin.Catalog.Transaction.{Outcome}
use fembin.Busy.Pagination.{fetch_all_pages, fetch_pages, int_at, read_page, row_cursor, text_at}
use fembin.Busy.Client.{answer, call, get_master_xml, run_query}
use fembin.Base.Dict.{lookup}
use fembin.Strings.{parse_int, print_ℕ}
use fembin.Busy.Rowset.{parse_rowset_xml}
use fembin.Busy.BitColumns.{is_master_active}
use fembin.Busy.Element.{get_entry, parse_element_xml}
use fembin.Catalog.Detail.{map_item_fields}
use fembin.Decimal.{parse_decimal}
use fembin.Base.Dict.{insert}
use fembin.Strings.{strip}
use fembin.Table.{get_row}
use fembin.Busy.Rowset.{Row, get_or_empty}
use fembin.Catalog.VchSeries.{
  winning_series_code, series_code, count_rows, count_code, count_of, max_key,
}
use fembin.Catalog.VchSeries.MostUsed.{occurrences, winning_series_code_most_used}
use fembin.Catalog.Queries.{set_product_barcode}
use fembin.Catalog.Queries.Barcodes.{HasUniqueBarcodes, set_product_barcode-HasUniqueBarcodes}
use fembin.Auth.{NewUser, find_user, user_of, add_user, create_user, authenticate_user}
use fembin.Auth.Login.{authenticate_user-create_user}
use fembin.Db.{MaterialCenter}
use fembin.Base.Int.{pos}
use fembin.Tests.Data.{db, catalog, repr}

abbrev begun : State Unit
begun = record { session = record { saved = db; now = db }; net = tt }

sync_products_keeps_example :
    let t = (sync_products repr catalog 3 false (codes "full") 100 60 500 8 begun).1 in
    Kept db.products t.session.now.products × Kept db.products t.session.saved.products
sync_products_keeps_example =
    sync_products_keeps repr catalog 3 false (codes "full") 100 60 500 8 begun refl

sync_products_atomic_example :
    Outcome is_some begun (sync_products repr catalog 3 false (codes "full") 100 60 500 8 begun)
sync_products_atomic_example =
    sync_products_atomic repr catalog 3 false (codes "full") 100 60 500 8 begun

-- the active item is read and stored, the blocked one is stored as inactive
both_stored :
    (sync_products repr catalog 3 false (codes "full") 100 60 500 8 begun).0
    ≡ ok (
        some (record {
          entity = codes "products";
          changed = 2;
          incremental = false;
          stored = 2;
          failed = 0;
        }))
unfolding sync_products text_eq codes fetch_all_pages fetch_pages read_page run_query call answer
    lookup print_ℕ parse_rowset_xml row_cursor parse_int store_fetched store_products scan_rows
    is_master_active get_master_xml parse_element_xml map_item_fields batched fetch_batch
    fetch_detail finish plan store_active store_batches store_details int_at text_at get_entry
    parse_decimal
both_stored = refl

abbrev voucher : Text → Text → Text → Row
voucher series code vch_no =
    (codes "VchSeriesCode", series) ∷ (codes "VchCode", code) ∷ (codes "VchNo", vch_no) ∷ []

abbrev vouchers : List Row
vouchers =
    voucher (codes "51") (codes "900") (codes "RTD-4")
    ∷ voucher (codes "50") (codes "800") (codes "JCT-7")
    ∷ voucher (codes "50") (codes "801") (codes "JCT-8")
    ∷ []

fifty_wins : winning_series_code vouchers ≡ some (codes "50")
unfolding winning_series_code series_code strip text_eq codes get_or_empty lookup count_rows
    count_code count_of max_key insert
fifty_wins = refl

winning_series_code_most_used_example :
    occurrences (codes "51") vouchers ≤ occurrences (codes "50") vouchers
unfolding codes
winning_series_code_most_used_example =
    winning_series_code_most_used vouchers (codes "50") (codes "51") fifty_wins
      (λ e. absurd (ground arith))

db-HasUniqueBarcodes : HasUniqueBarcodes db.products
unfolding get_row
db-HasUniqueBarcodes i j p q barcode gi gj bi bj = absurd (ground arith)

set_product_barcode-HasUniqueBarcodes_example :
    HasUniqueBarcodes (set_product_barcode (pos 7) (codes "4006381") begun.session).1.now.products
set_product_barcode-HasUniqueBarcodes_example =
    set_product_barcode-HasUniqueBarcodes (pos 7) (codes "4006381") begun.session
      db-HasUniqueBarcodes

abbrev ann : NewUser
ann = record {
  username = codes "ann";
  password = codes "secret";
  full_name = codes "Ann";
  material_center_code = pos 201;
  is_superadmin = false;
}

abbrev shop : MaterialCenter
shop = record {
  busy_code = pos 201;
  name = codes "Shop";
  alias = none;
  parent_group = none;
  is_active = true;
  vch_series_name = none;
  vch_no_prefix = none;
  vch_series_resolved_at = none;
}

abbrev with_shop : Session
with_shop = record { saved = db; now = record db { material_centers = shop ∷ [] } }

abbrev hash : Text → Text
hash t = b'#' ∷ t

abbrev verify : Text → Text → Bool
verify t h = text_eq (b'#' ∷ t) h

abbrev with_ann : Session
with_ann =
    let now = add_user (user_of hash ann 1) with_shop.now in record { saved = now; now = now }

ann_created : create_user hash ann with_shop ≡ (ok (user_of hash ann 1), with_ann)
unfolding create_user find_user get_row
ann_created = refl

authenticate_user-create_user_example :
    (authenticate_user verify (codes "ann") (codes "secret") with_ann ≡ ok (user_of hash ann 1))
    × ((name password : Text)
        → name ≢ codes "ann"
        → authenticate_user verify name password with_ann
          ≡ authenticate_user verify name password with_shop)
authenticate_user-create_user_example =
    authenticate_user-create_user hash verify ann with_shop with_ann (user_of hash ann 1)
      (text_eq_refl (b'#' ∷ codes "secret")) ann_created
