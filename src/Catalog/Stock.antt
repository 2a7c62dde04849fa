-- ===== src/Catalog/Stock.antt =====
-- app/domain/catalog/stock.py: the stock of an item, as the sum of its movements in BUSY.
pub mod Exact
use fembin.Base.{ℕ, ◌+◌, Text, codes, List, [], ◌∷◌, ◌++◌, Bool, false, not, ◌||◌, if◌then◌else◌}
use fembin.Base.Int.{ℤ, pos, eqb_ℤ}
use fembin.Exec.{Exec, Result, ok, err, lift, and_then, ◌>>=◌}
use fembin.Errors.{Exn, value_error, invalid_operation, or_error}
use fembin.Strings.{print_ℤ}
use fembin.Decimal.{Decimal, decimal_zero, parse_decimal, add}
use fembin.Busy.Client.{BusyClient, run_query}
use fembin.Busy.Constants.{
  VchType, vch_type, purchase, sale_return, material_receipt, stock_transfer, production,
  unassemble, stock_journal, sale, purchase_return, material_issue, physical_stock,
}
use fembin.Busy.Pagination.{text_at, int_at}
use fembin.Busy.Rowset.{Row, parse_rowset_xml}

abbrev pub item_movement_rec_type : ℕ
item_movement_rec_type = 2

abbrev pub stock_moving_vch_types : List VchType
stock_moving_vch_types =
    purchase ∷ sale_return ∷ material_receipt ∷ stock_transfer ∷ production ∷ unassemble
    ∷ stock_journal ∷ sale ∷ purchase_return ∷ material_issue ∷ physical_stock ∷ []

unfoldable pub mem_vch_type : ℤ → List VchType → Bool
mem_vch_type z [] = false
mem_vch_type z (t ∷ ts) = eqb_ℤ (pos (vch_type t)) z || mem_vch_type z ts

pub record StockMovement : Type 0 where
  pub vch_code : ℤ
  pub vch_type : ℤ
  pub rec_type : ℤ
  pub qty : Decimal

unfoldable pub movement_of : Row → Result Exn StockMovement
movement_of row = and_then (int_at (codes "VchCode") row) (λ code.
    and_then (int_at (codes "VchType") row) (λ kind. and_then (int_at (codes "RecType") row) (λ rec.
      and_then (text_at (codes "Value1") row) (λ value.
        and_then (or_error invalid_operation (parse_decimal value))
          (λ qty. ok (record { vch_code = code; vch_type = kind; rec_type = rec; qty = qty }))))))

unfoldable pub movements_of : List Row → Result Exn (List StockMovement)
movements_of [] = ok []
movements_of (row ∷ rows) =
    and_then (movement_of row) (λ m. and_then (movements_of rows) (λ ms. ok (m ∷ ms)))

unfoldable pub fetch_item_stock_movements :
    {W : Type 0} → BusyClient W → ℤ → Exec Exn W (List StockMovement)
fetch_item_stock_movements client item_code = do
  xml ← run_query client (
      codes "SELECT VchCode, VchType, RecType, Value1 FROM Tran2 WHERE MasterCode1 = "
      ++ print_ℤ item_code)
  rows ← lift (parse_rowset_xml xml)
  lift (movements_of rows)

-- one round of the loop; `continue` where a line is of another kind
unfoldable pub add_movement : Decimal → StockMovement → Decimal
add_movement total m =
    if not (eqb_ℤ m.rec_type (pos item_movement_rec_type))
    then total
    else if not (mem_vch_type m.vch_type stock_moving_vch_types)
    then total
    else add total m.qty

unfoldable pub add_movements : Decimal → List StockMovement → Decimal
add_movements total [] = total
add_movements total (m ∷ ms) = add_movements (add_movement total m) ms

unfoldable pub compute_item_stock : List StockMovement → Decimal
unfolding add_movements
compute_item_stock movements = add_movements decimal_zero movements
