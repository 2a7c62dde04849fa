-- ===== src/Decimal.antt =====
-- Python's finite `Decimal`, as the program reads, prints, multiplies and quantizes it, in the
-- default context of 28 digits. Exponents have no bounds, and the texts for infinities and NaN are
-- refused.
pub mod Rounding
pub mod Scan
pub mod Sums
pub mod RoundTrip
use fembin.Base.{
  ℕ, zero, suc, ◌+◌, ◌-◌, ◌*◌, ◌/◌, ◌%◌, ◌^◌, Text, codes, text_eq, Option, none, some, List, [],
  ◌∷◌, ◌++◌, Bool, true, false, not, ◌&&◌, ◌||◌, ltb, leb, ◌==◌, if◌then◌else◌, length, take, drop,
}
use fembin.Base.Int.{ℤ, pos, negsuc, pos_part, neg_part, sub_ℕ, ◌+ℤ◌, ltb_ℤ}
use fembin.Strings.{strip, is_digit, digits, print_ℕ}

-- (-1) ^ neg * coeff * 10 ^ exp
pub record Decimal : Type 0 where
  pub neg : Bool
  pub coeff : ℕ
  pub exp : ℤ

abbrev pub decimal_zero : Decimal
decimal_zero = record { neg = false; coeff = 0; exp = pos 0 }

without_underscores : Text → Text
without_underscores [] = []
without_underscores (c ∷ s) =
    let rest = without_underscores s in if c == b'_' then rest else c ∷ rest

-- Digits with at most one point; the coefficient, the digits behind the point, and what follows
-- an `E`. The flags: a digit was seen, the point was seen.
pub mantissa : Bool → Bool → ℕ → ℕ → Text → Option (ℕ × ℕ × Option Text)
mantissa seen point n frac [] = if seen then some (n, frac, none) else none
mantissa seen point n frac (c ∷ s) = elim (is_digit c) [
  | true ↦ mantissa true point (n * 10 + (c - 48)) (if point then frac + 1 else frac) s
  | false ↦ elim (c == b'.' && not point) [
    | true ↦ mantissa seen true n frac s
    | false ↦ if seen && (c == b'e' || c == b'E') then some (n, frac, some s) else none
  ]
]

pub exponent : Option Text → Option ℤ
exponent none = some (pos 0)
exponent (some []) = none
exponent (some (c ∷ s)) =
    if c == b'-'
    then elim (digits s) [ none ↦ none | some n ↦ some (sub_ℕ 0 n) ]
    else if c == b'+'
    then elim (digits s) [ none ↦ none | some n ↦ some (pos n) ]
    else elim (digits (c ∷ s)) [ none ↦ none | some n ↦ some (pos n) ]

pub unsigned : Bool → Text → Option Decimal
unsigned neg s = elim (mantissa false false 0 0 s) [
  | none ↦ none
  | some (n, frac, e) ↦ elim (exponent e) [
    | none ↦ none
    | some x ↦ some (record { neg = neg; coeff = n; exp = x +ℤ sub_ℕ 0 frac })
  ]
]

signed : Text → Option Decimal
signed [] = none
signed (c ∷ s) =
    if c == b'-'
    then unsigned true s
    else if c == b'+'
    then unsigned false s
    else unsigned false (c ∷ s)

-- Decimal(s); `none` is InvalidOperation
unfoldable pub parse_decimal : Text → Option Decimal
unfolding signed unsigned mantissa exponent without_underscores is_digit digits strip ◌+ℤ◌
parse_decimal s = signed (without_underscores (strip s))

pub zeros : ℕ → Text
zeros zero = []
zeros (suc n) = b'0' ∷ zeros n

-- the digits with a point after `place` of them
with_point : ℤ → Text → Text
with_point (negsuc n) ds = codes "0." ++ (zeros (suc n) ++ ds)
with_point (pos zero) ds = codes "0." ++ ds
with_point (pos (suc n)) ds =
    if leb (length ds) (suc n)
    then ds ++ zeros (suc n - length ds)
    else take (suc n) ds ++ (b'.' ∷ drop (suc n) ds)

pub exponent_text : ℤ → Text
exponent_text (pos zero) = []
exponent_text (pos (suc n)) = codes "E+" ++ print_ℕ (suc n)
exponent_text (negsuc n) = codes "E-" ++ print_ℕ (suc n)

-- str(d)
unfoldable pub print_decimal : Decimal → Text
unfolding with_point exponent_text zeros codes print_ℕ ◌+ℤ◌
print_decimal d =
    let ds = print_ℕ d.coeff in
    let left = d.exp +ℤ pos (length ds) in
    let plain = not (ltb_ℤ (pos 0) d.exp) && ltb_ℤ (negsuc 5) left in
    let place = if plain then left else pos 1 in
    (if d.neg then b'-' ∷ [] else [])
    ++ (with_point place ds ++ exponent_text (left +ℤ sub_ℕ (neg_part place) (pos_part place)))

-- n / 10 ^ k to the nearest number, ties to the even one (ROUND_HALF_EVEN)
abbrev pub half_even : ℕ → ℕ → ℕ → ℕ
half_even unit q r =
    if ltb (2 * r) unit
    then q
    else if ltb unit (2 * r)
    then q + 1
    else if q % 2 == 0
    then q
    else q + 1

unfoldable pub round_half_even : ℕ → ℕ → ℕ
round_half_even k n = half_even (10 ^ k) (n / 10 ^ k) (n % 10 ^ k)

abbrev pub precision : ℕ
precision = 28

-- the context's rounding of a result
fix : Decimal → Decimal
unfolding round_half_even
fix d =
    let n = length (print_ℕ d.coeff) in
    if leb n precision
    then d
    else let k = n - precision in
      let c = round_half_even k d.coeff in
      if length (print_ℕ c) == precision
      then record d { coeff = c; exp = d.exp +ℤ pos k }
      else record d { coeff = c / 10; exp = d.exp +ℤ pos (k + 1) }

-- a * b
unfoldable pub multiply : Decimal → Decimal → Decimal
unfolding fix ◌+ℤ◌
multiply a b = fix (record {
  neg = if a.neg then not b.neg else b.neg;
  coeff = a.coeff * b.coeff;
  exp = a.exp +ℤ b.exp;
})

abbrev pub min_ℤ : ℤ → ℤ → ℤ
min_ℤ a b = if ltb_ℤ b a then b else a

-- a coefficient at an exponent that is not above its own
abbrev pub at_exponent : ℤ → Decimal → ℕ
at_exponent e d = d.coeff * 10 ^ pos_part (d.exp +ℤ sub_ℕ (neg_part e) (pos_part e))

-- the sum of two numbers with signs: its sign, and its size; a zero of two signs is positive
abbrev pub sum_neg : Bool → ℕ → Bool → ℕ → Bool
sum_neg true x true y = true
sum_neg false x false y = false
sum_neg true x false y = ltb y x
sum_neg false x true y = ltb x y

abbrev pub sum_size : Bool → ℕ → Bool → ℕ → ℕ
sum_size true x true y = x + y
sum_size false x false y = x + y
sum_size true x false y = x - y + (y - x)
sum_size false x true y = x - y + (y - x)

-- a + b before the context rounds it
abbrev pub exact_sum : Decimal → Decimal → Decimal
exact_sum a b =
    let e = min_ℤ a.exp b.exp in
    let x = at_exponent e a in
    let y = at_exponent e b in
    record { neg = sum_neg a.neg x b.neg y; coeff = sum_size a.neg x b.neg y; exp = e }

-- a + b
unfoldable pub add : Decimal → Decimal → Decimal
unfolding fix ◌+ℤ◌
add a b = fix (exact_sum a b)

-- the coefficient at exponent -2
unfoldable pub cents : Decimal → ℕ
unfolding round_half_even ◌+ℤ◌
cents d = elim (d.exp +ℤ pos 2) [
  | pos k ↦ d.coeff * 10 ^ k
  | negsuc k ↦ round_half_even (suc k) d.coeff
]

-- d.quantize(Decimal("0.01")); `none` is InvalidOperation
unfoldable pub quantize : Decimal → Option Decimal
unfolding cents print_ℕ
quantize d =
    if leb (length (print_ℕ (cents d))) precision
    then some (record d { coeff = cents d; exp = negsuc 1 })
    else none

-- `==` on the values: both coefficients at the smaller exponent
unfoldable pub decimal_eq : Decimal → Decimal → Bool
unfolding ◌+ℤ◌
decimal_eq a b =
    let d = a.exp +ℤ sub_ℕ (neg_part b.exp) (pos_part b.exp) in
    let x = a.coeff * 10 ^ pos_part d in
    let y = b.coeff * 10 ^ neg_part d in
    x == y && (x == 0 || not (if a.neg then not b.neg else b.neg))
