-- ===== src/Orders/Refresh/Amounts.antt =====
-- `_reprice` of app/domain/orders/quotations.py: how far the new amount is from quantity times price.
use fembin.Base.{
  ◌*◌, ◌≤◌, ◌≡◌, Text, arith, Bool, not, if◌then◌else◌, length, Option-cases, inl, inr,
}
use fembin.Base.Int.{pos, negsuc, ◌+ℤ◌}
use fembin.Exec.{ok}
use fembin.Strings.{print_ℕ}
use fembin.Decimal.{Decimal, precision, multiply, quantize, cents}
use fembin.Decimal.Rounding.{IsNearest, cents-IsNearest, multiply_exact, quantize-some}
use fembin.Orders.Items.{QuotationItem}
use fembin.Orders.Refresh.{reprice}

-- the sign of a product
abbrev pub product_neg : Decimal → Decimal → Bool
product_neg a b = if a.neg then not b.neg else b.neg

-- the product before the context rounds it
abbrev product : Decimal → Decimal → Decimal
product a b = record { neg = product_neg a b; coeff = a.coeff * b.coeff; exp = a.exp +ℤ b.exp }

-- If the product of quantity and price has at most 28 digits, the amount of a repriced item is
-- their product rounded to whole cents: exactly the product where that has at most two decimals,
-- and otherwise at most half a cent away from it, with the product's sign.
pub reprice_bounds :
    (name : Text) (price : Decimal) (item item' : QuotationItem)
    → length (print_ℕ (item.qty.coeff * price.coeff)) ≤ precision
    → reprice name price item ≡ ok item'
    → (item'.amount.exp ≡ negsuc 1)
      × (item'.amount.neg ≡ product_neg item.qty price)
      × IsNearest
          (item.qty.exp +ℤ price.exp +ℤ pos 2)
          (item.qty.coeff * price.coeff)
          item'.amount.coeff
unfolding reprice
reprice_bounds name price item item' fits h =
    elim (Option-cases (quantize (multiply item.qty price))) [
      | inl n ↦ absurd (ground arith)
      | inr (amount, e) ↦
          let exact = multiply_exact item.qty price fits in
          let q = quantize-some (product item.qty price) {q = amount} (rw (← exact) e) in
          let coeff : item'.amount.coeff ≡ cents (product item.qty price) = ground arith in
          (ground arith, ground arith, rw coeff (cents-IsNearest (product item.qty price)))
    ]
