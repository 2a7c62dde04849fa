-- ===== src/Decimal/Scan.antt =====
-- What the scanner of `Decimal(s)` reads: digits, a point, digits, and an exponent.
use fembin.Base.{
  ℕ, zero, suc, ◌+◌, ◌-◌, ◌*◌, ◌≡◌, refl, Text, codes, Option, none, some, [], ◌∷◌, ◌++◌, Bool,
  true, false, arith, All, length, take, drop,
}
use fembin.Base.Int.{ℤ, pos, negsuc, ◌+ℤ◌, sub_ℕ}
use fembin.Strings.{is_digit, digits, parse_digits, print_ℕ}
use fembin.Strings.Digits.{digits-print_ℕ}
use fembin.Strings.Ints.{IsDigit, print_ℕ-digits}
use fembin.Decimal.{Decimal, mantissa, exponent, unsigned, zeros, exponent_text}

-- the number that digits stand for, behind those of `n`
abbrev pub val : ℕ → Text → ℕ
val n [] = n
val n (c ∷ s) = val (n * 10 + (c - 48)) s

pub val-append : (n : ℕ) (s t : Text) → val n (s ++ t) ≡ val (val n s) t
val-append n [] t = refl
val-append n (c ∷ s) t = val-append (n * 10 + (c - 48)) s t

pub parse_digits-val : (n : ℕ) (s : Text) → All IsDigit s → parse_digits n s ≡ some (val n s)
unfolding parse_digits is_digit
parse_digits-val n [] h = refl
parse_digits-val n (c ∷ s) h = ground (arith, parse_digits-val (n * 10 + (c - 48)) s h.1)

pub val-digits : (s : Text) {n : ℕ} → All IsDigit s → digits s ≡ some n → val 0 s ≡ n
unfolding digits
val-digits [] h e = ground arith
val-digits (c ∷ s) h e = ground (arith, parse_digits-val 0 (c ∷ s) h)

pub val-print_ℕ : (n : ℕ) → val 0 (print_ℕ n) ≡ n
val-print_ℕ n = val-digits (print_ℕ n) (print_ℕ-digits n) (digits-print_ℕ n)

pub mantissa-whole :
    (n f : ℕ) (s k : Text)
    → All IsDigit s
    → mantissa true false n f (s ++ k) ≡ mantissa true false (val n s) f k
unfolding mantissa is_digit
mantissa-whole n f [] k h = refl
mantissa-whole n f (c ∷ s) k h = ground (arith, mantissa-whole (n * 10 + (c - 48)) f s k h.1)

pub mantissa-fraction :
    (n f : ℕ) (s k : Text)
    → All IsDigit s
    → mantissa true true n f (s ++ k) ≡ mantissa true true (val n s) (f + length s) k
unfolding mantissa is_digit
mantissa-fraction n f [] k h = ground arith
mantissa-fraction n f (c ∷ s) k h =
    ground (arith, mantissa-fraction (n * 10 + (c - 48)) (f + 1) s k h.1)

-- the text that follows the `E`
abbrev pub exponent_rest : ℤ → Option Text
exponent_rest (pos zero) = none
exponent_rest (pos (suc n)) = some (b'+' ∷ print_ℕ (suc n))
exponent_rest (negsuc n) = some (b'-' ∷ print_ℕ (suc n))

pub mantissa-end :
    (point : Bool) (n f : ℕ) (x : ℤ)
    → mantissa true point n f (exponent_text x) ≡ some (n, f, exponent_rest x)
unfolding mantissa is_digit exponent_text codes
mantissa-end point n f (pos zero) = refl
mantissa-end point n f (pos (suc k)) = ground arith
mantissa-end point n f (negsuc k) = ground arith

pub exponent-rest : (x : ℤ) → exponent (exponent_rest x) ≡ some x
unfolding exponent
exponent-rest (pos zero) = refl
exponent-rest (pos (suc k)) = ground (arith, digits-print_ℕ (suc k))
exponent-rest (negsuc k) = ground (arith, digits-print_ℕ (suc k))

abbrev pub decimal : Bool → ℕ → ℤ → Decimal
decimal neg n x = record { neg = neg; coeff = n; exp = x }

pub unsigned-whole :
    (neg : Bool) (c : ℕ) (s : Text) (x : ℤ)
    → All IsDigit (c ∷ s)
    → unsigned neg ((c ∷ s) ++ exponent_text x)
      ≡ some (decimal neg (val 0 (c ∷ s)) (x +ℤ sub_ℕ 0 0))
unfolding unsigned mantissa is_digit
unsigned-whole neg c s x h = ground (
  arith,
  mantissa-whole (0 * 10 + (c - 48)) 0 s (exponent_text x) h.1,
  mantissa-end false (val (0 * 10 + (c - 48)) s) 0 x,
  exponent-rest x,
)

pub mantissa-point :
    (n f : ℕ) (s t k : Text)
    → All IsDigit s
    → All IsDigit t
    → mantissa true false n f (s ++ (b'.' ∷ (t ++ k)))
      ≡ mantissa true true (val n (s ++ t)) (f + length t) k
unfolding mantissa is_digit
mantissa-point n f s t k h j = ground (
  arith,
  mantissa-whole n f s (b'.' ∷ (t ++ k)) h,
  mantissa-fraction (val n s) f t k j,
  val-append n s t,
)

pub unsigned-point :
    (neg : Bool) (c : ℕ) (s t : Text) (x : ℤ)
    → All IsDigit (c ∷ s)
    → All IsDigit t
    → unsigned neg ((c ∷ s) ++ (b'.' ∷ (t ++ exponent_text x)))
      ≡ some (decimal neg (val 0 ((c ∷ s) ++ t)) (x +ℤ sub_ℕ 0 (length t)))
unfolding unsigned mantissa is_digit
unsigned-point neg c s t x h j = ground (
  arith,
  mantissa-point (0 * 10 + (c - 48)) 0 s t (exponent_text x) h.1 j,
  mantissa-end true (val (0 * 10 + (c - 48)) (s ++ t)) (0 + length t) x,
  exponent-rest x,
)

-- a - n
abbrev pub minus : ℤ → ℕ → ℤ
minus a n = a +ℤ sub_ℕ 0 n

pub take-digits : (n : ℕ) (s : Text) → All IsDigit s → All IsDigit (take n s)
take-digits zero s h = tt
take-digits (suc n) [] h = tt
take-digits (suc n) (c ∷ s) h = (h.0, take-digits n s h.1)

pub drop-digits : (n : ℕ) (s : Text) → All IsDigit s → All IsDigit (drop n s)
drop-digits zero s h = h
drop-digits (suc n) [] h = tt
drop-digits (suc n) (c ∷ s) h = drop-digits n s h.1

pub zeros-digits : (n : ℕ) → All IsDigit (zeros n)
unfolding zeros
zeros-digits zero = tt
zeros-digits (suc n) = (omega arith, zeros-digits n)

pub val-zeros : (n : ℕ) (s : Text) → val 0 (zeros n ++ s) ≡ val 0 s
unfolding zeros
val-zeros zero s = refl
val-zeros (suc n) s = val-zeros n s

pub length-zeros : (n : ℕ) (s : Text) → length (zeros n ++ s) ≡ n + length s
unfolding zeros
length-zeros zero s = omega arith
length-zeros (suc n) s = omega (arith, length-zeros n s)
