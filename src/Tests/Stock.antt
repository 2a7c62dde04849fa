-- ===== src/Tests/Stock.antt =====
-- The stock of an item with a purchase, a sale and an order, and the promise of a table.
use fembin.Base.{◌≡◌, ◌<◌, ◌^◌, refl, [], ◌∷◌, List, ℕ, true, false, Bool, arith}
use fembin.Base.Int.{ℤ, pos, negsuc}
use fembin.Decimal.{add}
use fembin.Strings.{print_ℕ}
use fembin.Decimal.Sums.{value}
use fembin.Table.Order.{select_where}
use fembin.Catalog.Stock.{StockMovement, compute_item_stock, add_movement, mem_vch_type}
use fembin.Catalog.Stock.Exact.{moves_stock, total_value, total_units, compute_item_stock_exact}
use fembin.Outbox.Refines.{PromisedAll, promise, Reach-PromisedAll}
use fembin.Errors.{integrity_error}
use fembin.Tests.Data.{no_name}
use fembin.Tests.Outbox.{fresh, began, runs, fresh-IsFair}

abbrev line : ℕ → ℕ → Bool → ℕ → ℤ → StockMovement
line kind rec neg coeff exp = record {
  vch_code = pos 1;
  vch_type = pos kind;
  rec_type = pos rec;
  qty = record { neg = neg; coeff = coeff; exp = exp };
}

-- 2.5 bought, 1 sold, and 3 on order
abbrev lines : List StockMovement
lines = line 2 2 false 25 (negsuc 0) ∷ line 9 2 true 1 (pos 0) ∷ line 12 20 false 3 (pos 0) ∷ []

one_and_a_half : compute_item_stock lines ≡ record { neg = false; coeff = 15; exp = negsuc 0 }
unfolding compute_item_stock add_movement mem_vch_type add print_ℕ
one_and_a_half = refl

few : total_units 1 (select_where moves_stock lines) < 10 ^ 28
unfolding select_where mem_vch_type
few = omega arith

compute_item_stock_exact_example :
    value 1 (compute_item_stock lines) ≡ total_value 1 (select_where moves_stock lines)
compute_item_stock_exact_example = compute_item_stock_exact 1 lines (omega arith) few

Reach-PromisedAll_example : PromisedAll (promise fresh) (promise began)
Reach-PromisedAll_example = Reach-PromisedAll no_name no_name integrity_error runs fresh-IsFair
