-- ===== src/Catalog/Snapshot.antt =====
-- app/domain/catalog/sync.py: `apply_live_product_snapshot`.
use fembin.Base.{Text}
use fembin.Base.Int.{ℤ}
use fembin.Decimal.{Decimal}
use fembin.Table.{update_row}
use fembin.Db.{Product, Session, commit}

abbrev freshen : Text → Decimal → Product → Product
freshen name price p = record p { name = name; price = price }

-- UPDATE only, then a commit
unfoldable pub apply_live_product_snapshot : ℤ → Text → Decimal → Session → Session
unfolding update_row
apply_live_product_snapshot code name price s = commit (record s {
  now = record s.now {
    products = update_row (λ p. p.busy_code) code (freshen name price) s.now.products;
  };
})
