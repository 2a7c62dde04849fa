-- ===== src/Decimal/Rounding.antt =====
-- How far rounding moves a value.
use fembin.Base.{
  ℕ, suc, refl, some, not, if◌then◌else◌, length, ◌+◌, ◌*◌, ◌/◌, ◌%◌, ◌^◌, ◌≤◌, ◌<◌, ◌≡◌, ◌⊎◌, inl,
  inr, arith,
}
use native.Mathlib.Nat.{div-add-mod, mod-lt, one-le-pow}
use fembin.Base.Int.{ℤ, pos, negsuc, ◌+ℤ◌}
use fembin.Strings.{print_ℕ}
use fembin.Decimal.{Decimal, half_even, round_half_even, fix, precision, multiply, cents, quantize}

half_even_cases :
    (unit q r : ℕ)
    → (half_even unit q r ≡ q) × (2 * r ≤ unit) ⊎ (half_even unit q r ≡ q + 1) × (unit ≤ 2 * r)
half_even_cases unit q r = ground arith

half_even_near :
    (unit q r n : ℕ)
    → unit * q + r ≡ n
    → r < unit
    → (2 * (half_even unit q r * unit) ≤ 2 * n + unit)
      × (2 * n ≤ 2 * (half_even unit q r * unit) + unit)
half_even_near unit q r n e h = elim (half_even_cases unit q r) [
  | inl (down, small) ↦ rw down (omega arith)
  | inr (up, large) ↦ rw up (omega arith)
]

-- Rounding off k digits moves the number by at most half a unit of the last digit kept.
pub round_half_even_near :
    (k n : ℕ)
    → let q = round_half_even k n in
      (2 * (q * 10 ^ k) ≤ 2 * n + 10 ^ k) × (2 * n ≤ 2 * (q * 10 ^ k) + 10 ^ k)
unfolding round_half_even
round_half_even_near k n =
    half_even_near (10 ^ k) (n / 10 ^ k) (n % 10 ^ k) n (div-add-mod n (10 ^ k))
      (mod-lt n (one-le-pow k 10 (omega arith)))

-- `c` is `n * 10 ^ x` to the nearest whole number
abbrev pub IsNearest : ℤ → ℕ → ℕ → Type 0
IsNearest (pos k) n c = c ≡ n * 10 ^ k
IsNearest (negsuc k) n c =
    (2 * (c * 10 ^ suc k) ≤ 2 * n + 10 ^ suc k) × (2 * n ≤ 2 * (c * 10 ^ suc k) + 10 ^ suc k)

cents-IsNearest_at :
    (x : ℤ) (n : ℕ)
    → IsNearest x n (elim x [ pos k ↦ n * 10 ^ k | negsuc k ↦ round_half_even (suc k) n ])
cents-IsNearest_at (pos k) n = refl
cents-IsNearest_at (negsuc k) n = round_half_even_near (suc k) n

-- the cents of a value are the nearest to it
pub cents-IsNearest : (d : Decimal) → IsNearest (d.exp +ℤ pos 2) d.coeff (cents d)
unfolding cents
cents-IsNearest d = cents-IsNearest_at (d.exp +ℤ pos 2) d.coeff

-- a product of at most 28 digits is exact
pub multiply_exact :
    (a b : Decimal)
    → length (print_ℕ (a.coeff * b.coeff)) ≤ precision
    → multiply a b ≡ record {
      neg = if a.neg then not b.neg else b.neg;
      coeff = a.coeff * b.coeff;
      exp = a.exp +ℤ b.exp;
    }
unfolding multiply fix
multiply_exact a b h = ground arith

pub quantize-some :
    (d : Decimal) {q : Decimal}
    → quantize d ≡ some q
    → (q.neg ≡ d.neg) × (q.coeff ≡ cents d) × (q.exp ≡ negsuc 1)
unfolding quantize
quantize-some d h = ground arith
