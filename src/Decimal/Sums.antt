-- ===== src/Decimal/Sums.antt =====
-- Sums of Decimals without rounding, as whole numbers of units of 10 ^ -k.
use fembin.Base.{
  ℕ, zero, suc, ◌+◌, ◌-◌, ◌*◌, ◌/◌, ◌%◌, ◌^◌, ◌<◌, ◌≤◌, ◌≡◌, ap, sym, ◌∙◌, Bool, true, false, arith,
  length, [], ◌∷◌, Text, ltb, Bool-cases, inl, inr,
}
use native.Mathlib.Nat.{pow-zero, pow-succ', one-le-pow, mul_assoc}
use fembin.Base.Int.{ℤ, pos, ◌+ℤ◌, sub_ℕ, pos_part, neg_part, ltb_ℤ, +ℤ_parts}
use fembin.Strings.{print_go, print_ℕ}
use fembin.Decimal.{Decimal, fix, add, exact_sum, at_exponent, min_ℤ, sum_neg, sum_size}

pow-add : (b m n : ℕ) → b ^ (m + n) ≡ b ^ m * b ^ n
pow-add b zero n = grind (arith, pow-zero)
pow-add b (suc m) n =
    ap (λ (k : ℕ). b ^ k) (omega arith)
    ∙ pow-succ' b (m + n)
    ∙ ap (λ (p : ℕ). b * p) (pow-add b m n)
    ∙ sym (mul_assoc b (b ^ m) (b ^ n))
    ∙ ap (λ (p : ℕ). p * b ^ n) (sym (pow-succ' b m))

length-print_go :
    (fuel m n : ℕ) (acc : Text) → n < 10 ^ suc m → length (print_go fuel n acc) ≤ suc m + length acc
unfolding print_go
length-print_go zero m n acc h = omega arith
length-print_go (suc fuel) zero n acc h = ground arith
length-print_go (suc fuel) (suc m) n acc h =
    let smaller : n / 10 < 10 ^ suc m = omega (arith, pow-succ' 10 (suc m)) in
    ground (arith, length-print_go fuel m (n / 10) ((48 + n % 10) ∷ acc) smaller)

length-print_ℕ : (m n : ℕ) → n < 10 ^ suc m → length (print_ℕ n) ≤ suc m
unfolding print_ℕ
length-print_ℕ m n h = omega (arith, length-print_go (suc n) m n [] h)

-- a value of at most 28 digits is not rounded
fix_exact : (d : Decimal) → d.coeff < 10 ^ 28 → fix d ≡ d
unfolding fix
fix_exact d h = ground (arith, length-print_ℕ 27 d.coeff h)

-- |d| and d in units of 10 ^ -k, for a d with at most k decimals
abbrev pub units : ℕ → Decimal → ℕ
units k d = d.coeff * 10 ^ (k + pos_part d.exp - neg_part d.exp)

abbrev pub signed_by : Bool → ℕ → ℤ
signed_by true n = sub_ℕ 0 n
signed_by false n = pos n

abbrev pub value : ℕ → Decimal → ℤ
value k d = signed_by d.neg (units k d)

at_exponent-units :
    (k : ℕ) (e : ℤ) (d : Decimal)
    → neg_part e ≤ k
    → ltb_ℤ d.exp e ≡ false
    → at_exponent e d * 10 ^ (k + pos_part e - neg_part e) ≡ units k d
at_exponent-units k e d h below =
    let i = pos_part (d.exp +ℤ sub_ℕ (neg_part e) (pos_part e)) in
    let j = k + pos_part e - neg_part e in
    let split : i + j ≡ k + pos_part d.exp - neg_part d.exp =
      ground (arith, +ℤ_parts d.exp (sub_ℕ (neg_part e) (pos_part e))) in
    mul_assoc d.coeff (10 ^ i) (10 ^ j)
    ∙ ap (λ (p : ℕ). d.coeff * p) (sym (pow-add 10 i j))
    ∙ ap (λ (m : ℕ). d.coeff * 10 ^ m) split

-- d more of the unit p
mul-more : (y d p : ℕ) → (y + d) * p ≡ y * p + d * p
mul-more y d p = grind arith

mul-pos : (d p : ℕ) → 1 ≤ d → 1 ≤ p → 1 ≤ d * p
mul-pos d p h k = grind arith

gap : (x y p : ℕ) → x ≤ y → x * p + (y - x) * p ≡ y * p
gap x y p h = sym (mul-more x (y - x) p) ∙ ap (λ (m : ℕ). m * p) (omega arith)

size_below : (x y p : ℕ) → x < y → 1 ≤ p → ((x - y + (y - x)) * p ≡ y * p - x * p) × (x * p < y * p)
size_below x y p h k =
    let wide = mul-pos (y - x) p (omega arith) k in
    let whole = gap x y p (omega arith) in
    let size : x - y + (y - x) ≡ y - x = omega arith in
    (ap (λ (m : ℕ). m * p) size ∙ omega arith, omega arith)

size_above : (x y p : ℕ) → y ≤ x → ((x - y + (y - x)) * p ≡ x * p - y * p) × (y * p ≤ x * p)
size_above x y p h =
    let whole = gap y x p h in
    let size : x - y + (y - x) ≡ x - y = omega arith in
    (ap (λ (m : ℕ). m * p) size ∙ omega arith, omega arith)

swap_size : (x y p : ℕ) → (x - y + (y - x)) * p ≡ (y - x + (x - y)) * p
swap_size x y p = ap (λ (m : ℕ). m * p) (omega arith)

-- a sum of sizes with signs, in a unit and in multiples of it
scaled_sum :
    (na nb : Bool) (x y p : ℕ)
    → 1 ≤ p
    → signed_by (sum_neg na x nb y) (sum_size na x nb y * p)
      ≡ signed_by na (x * p) +ℤ signed_by nb (y * p)
unfolding ◌+ℤ◌
scaled_sum true true x y p h = ground (arith, mul-more x y p)
scaled_sum true false x y p h = elim (Bool-cases (ltb y x)) [
  | inl less ↦ let below = size_below y x p (ground arith) h in ground (arith, swap_size x y p)
  | inr other ↦ let above = size_above y x p (ground arith) in ground (arith, swap_size x y p)
]
scaled_sum false true x y p h = elim (Bool-cases (ltb x y)) [
  | inl less ↦ let below = size_below x y p (ground arith) h in ground arith
  | inr other ↦ let above = size_above x y p (ground arith) in ground arith
]
scaled_sum false false x y p h = ground (arith, mul-more x y p)

sum_size-le : (na nb : Bool) (x y : ℕ) → sum_size na x nb y ≤ x + y
sum_size-le na nb x y = ground arith

le-mul : (n p : ℕ) → 1 ≤ p → n ≤ n * p
le-mul n p h = grind arith

mul_mono : (m n p : ℕ) → m ≤ n → m * p ≤ n * p
mul_mono m n p h = omega (arith, gap m n p h)

module _ (k : ℕ) (a b : Decimal) (below_a : neg_part a.exp ≤ k) (below_b : neg_part b.exp ≤ k) where
  abbrev e : ℤ
  e = min_ℤ a.exp b.exp

  abbrev p : ℕ
  p = 10 ^ (k + pos_part e - neg_part e)

  within : neg_part e ≤ k
  within = ground arith

  units-a : at_exponent e a * p ≡ units k a
  units-a = at_exponent-units k e a within (ground arith)

  units-b : at_exponent e b * p ≡ units k b
  units-b = at_exponent-units k e b within (ground arith)

  total-le : units k (exact_sum a b) ≤ units k a + units k b
  total-le =
      let x = at_exponent e a in
      let y = at_exponent e b in
      omega (
        arith,
        mul_mono (sum_size a.neg x b.neg y) (x + y) p (sum_size-le a.neg b.neg x y),
        mul-more x y p,
        units-a,
        units-b,
      )

  one-le-p : 1 ≤ p
  one-le-p = one-le-pow (k + pos_part e - neg_part e) 10 (omega arith)

  value-exact_sum : value k (exact_sum a b) ≡ value k a +ℤ value k b
  value-exact_sum =
      let x = at_exponent e a in
      let y = at_exponent e b in
      scaled_sum a.neg b.neg x y p one-le-p
      ∙ ap (λ (n : ℕ). signed_by a.neg n +ℤ signed_by b.neg (y * p)) units-a
      ∙ ap (λ (n : ℕ). value k a +ℤ signed_by b.neg n) units-b

  -- a sum that has no more than 28 digits at 10 ^ -k has the value of its parts, and as few decimals
  pub add_exact :
      units k a + units k b < 10 ^ 28
      → (value k (add a b) ≡ value k a +ℤ value k b)
        × (neg_part (add a b).exp ≤ k)
        × (units k (add a b) ≤ units k a + units k b)
  unfolding add
  add_exact small =
      let bound = total-le in
      let few : (exact_sum a b).coeff < 10 ^ 28 =
        omega (arith, le-mul (exact_sum a b).coeff p one-le-p) in
      rw (fix_exact (exact_sum a b) few) (value-exact_sum, within, total-le)
