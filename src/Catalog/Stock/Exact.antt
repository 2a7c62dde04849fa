-- ===== src/Catalog/Stock/Exact.antt =====
-- `compute_item_stock` of app/domain/catalog/stock.py: the total is the exact sum of the quantities.
use fembin.Base.{
  ℕ, ◌+◌, ◌<◌, ◌≤◌, ◌^◌, ◌≡◌, refl, ap, sym, ◌∙◌, List, [], ◌∷◌, Bool, true, false, ◌&&◌, arith,
  All, Bool-cases, inl, inr,
}
use fembin.Base.Int.{ℤ, pos, ◌+ℤ◌, neg_part, eqb_ℤ, +ℤ_parts, eq_of_parts}
use fembin.Decimal.{Decimal, decimal_zero, add}
use fembin.Decimal.Sums.{units, value, add_exact}
use fembin.Table.Order.{select_where}
use fembin.Catalog.Stock.{
  StockMovement, item_movement_rec_type, stock_moving_vch_types, mem_vch_type, add_movement,
  add_movements, compute_item_stock,
}

-- a line of an item that moves stock
abbrev pub moves_stock : StockMovement → Bool
moves_stock m =
    eqb_ℤ m.rec_type (pos item_movement_rec_type) && mem_vch_type m.vch_type stock_moving_vch_types

-- the quantities together, with and without their signs, in units of 10 ^ -k
abbrev pub total_value : ℕ → List StockMovement → ℤ
total_value k [] = pos 0
total_value k (m ∷ ms) = value k m.qty +ℤ total_value k ms

abbrev pub total_units : ℕ → List StockMovement → ℕ
total_units k [] = 0
total_units k (m ∷ ms) = units k m.qty + total_units k ms

+ℤ_assoc : (a b c : ℤ) → a +ℤ b +ℤ c ≡ a +ℤ (b +ℤ c)
+ℤ_assoc a b c =
    eq_of_parts _ _
      (omega (arith, +ℤ_parts a b, +ℤ_parts b c, +ℤ_parts (a +ℤ b) c, +ℤ_parts a (b +ℤ c)))

+ℤ_zero : (a : ℤ) → a +ℤ pos 0 ≡ a
+ℤ_zero a = eq_of_parts _ _ (omega (arith, +ℤ_parts a (pos 0)))

zero-+ℤ : (a : ℤ) → pos 0 +ℤ a ≡ a
zero-+ℤ a = eq_of_parts _ _ (omega (arith, +ℤ_parts (pos 0) a))

value_zero : (k : ℕ) → value k decimal_zero ≡ pos 0
value_zero k = ap pos (omega arith)

add_movement_moving :
    (total : Decimal) (m : StockMovement)
    → moves_stock m ≡ true
    → add_movement total m ≡ add total m.qty
unfolding add_movement
add_movement_moving total m h = ground arith

add_movement_other :
    (total : Decimal) (m : StockMovement) → moves_stock m ≡ false → add_movement total m ≡ total
unfolding add_movement
add_movement_other total m h = ground arith

add_movements_exact :
    (k : ℕ) (total : Decimal) (ms : List StockMovement)
    → All (λ m. neg_part m.qty.exp ≤ k) ms
    → neg_part total.exp ≤ k
    → units k total + total_units k (select_where moves_stock ms) < 10 ^ 28
    → value k (add_movements total ms)
      ≡ value k total +ℤ total_value k (select_where moves_stock ms)
unfolding add_movements select_where
add_movements_exact k total [] few at small = ground (arith, +ℤ_zero (value k total))
add_movements_exact k total (m ∷ ms) few at small = elim (Bool-cases (moves_stock m)) [
  | inl moving ↦
      let rest = select_where moves_stock ms in
      let selected : select_where moves_stock (m ∷ ms) ≡ m ∷ rest = rw moving refl in
      let sizes = ap (total_units k) selected in
      let (sum, at', size) = add_exact k total m.qty at few.0 (omega arith) in
      ap (λ (d : Decimal). value k (add_movements d ms)) (add_movement_moving total m moving)
      ∙ add_movements_exact k (add total m.qty) ms few.1 at' (omega arith)
      ∙ ap (λ (z : ℤ). z +ℤ total_value k rest) sum
      ∙ +ℤ_assoc (value k total) (value k m.qty) (total_value k rest)
      ∙ ap (λ (l : List StockMovement). value k total +ℤ total_value k l) (sym selected)
  | inr other ↦
      let selected : select_where moves_stock (m ∷ ms) ≡ select_where moves_stock ms =
        rw other refl in
      let sizes = ap (total_units k) selected in
      ap (λ (d : Decimal). value k (add_movements d ms)) (add_movement_other total m other)
      ∙ add_movements_exact k total ms few.1 at (omega arith)
      ∙ ap (λ (l : List StockMovement). value k total +ℤ total_value k l) (sym selected)
]

-- If no quantity has more than k decimals, and the sizes of those that count have together at most
-- 28 digits in units of the k-th decimal, then the stock of an item is exactly the sum of the
-- quantities of its lines that move stock, with their signs; all other lines are left out.
pub compute_item_stock_exact :
    (k : ℕ) (ms : List StockMovement)
    → All (λ m. neg_part m.qty.exp ≤ k) ms
    → total_units k (select_where moves_stock ms) < 10 ^ 28
    → value k (compute_item_stock ms) ≡ total_value k (select_where moves_stock ms)
unfolding compute_item_stock
compute_item_stock_exact k ms few small =
    add_movements_exact k decimal_zero ms few (omega arith) (omega arith)
    ∙ ap (λ (z : ℤ). z +ℤ total_value k (select_where moves_stock ms)) (value_zero k)
    ∙ zero-+ℤ (total_value k (select_where moves_stock ms))
