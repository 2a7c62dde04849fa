-- ===== src/Decimal/RoundTrip.antt =====
-- `Decimal(str(d))` is `d`, with its sign, its digits and its exponent.
use fembin.Base.{
  ℕ, zero, suc, ◌-◌, ◌<◌, ◌≤◌, ◌≡◌, ◌≢◌, refl, ap, ◌∙◌, Text, codes, some, [], ◌∷◌, ◌++◌, Bool,
  true, false, arith, All, length, take, drop, take-append-drop, length-drop, if◌then◌else◌,
  Bool-cases, leb, inl, inr, not, ◌&&◌,
}
use mathlib.Core.List.{append_assoc, append-nil}
use fembin.Base.Int.{ℤ, pos, negsuc, ◌+ℤ◌, sub_ℕ, pos_part, neg_part, ltb_ℤ, +ℤ_parts, eq_of_parts}
use fembin.Strings.{digits, print_ℕ}
use fembin.Strings.Digits.{digits-print_ℕ}
use fembin.Strings.Ints.{IsDigit, IsInk, strip-ink, print_ℕ-digits, All-append}
use fembin.Decimal.{
  Decimal, without_underscores, unsigned, signed, parse_decimal, zeros, with_point, exponent_text,
  print_decimal,
}
use fembin.Decimal.Scan.{
  val, val-print_ℕ, decimal, unsigned-whole, unsigned-point, minus, take-digits, drop-digits,
  zeros-digits, val-zeros, length-zeros,
}

-- the place that leaves no digit behind the point is that of the last digit
abbrev IsFull : ℤ → ℕ → Type 0
IsFull place l = l ≤ pos_part place → l ≡ pos_part place

module _ (neg : Bool) (c : ℕ) (s : Text) (digits_all : All IsDigit (c ∷ s)) (y : ℤ) where
  abbrev ds : Text
  ds = c ∷ s

  abbrev Reads : ℤ → Type 0
  Reads place =
      unsigned neg (with_point place ds ++ exponent_text y)
      ≡ some (decimal neg (val 0 ds) (y +ℤ minus place (length ds)))

  Reads-small : (n : ℕ) → Reads (negsuc n)
  unfolding with_point ◌+ℤ◌ codes
  Reads-small n =
      unsigned-point neg b'0' [] (zeros (suc n) ++ ds) y (omega arith, tt)
        (All-append IsDigit (zeros (suc n)) ds (zeros-digits (suc n)) digits_all)
      ∙ ground (arith, val-zeros (suc n) ds, length-zeros (suc n) ds)

  Reads-fraction : Reads (pos zero)
  unfolding with_point ◌+ℤ◌ codes
  Reads-fraction = unsigned-point neg b'0' [] ds y (omega arith, tt) digits_all ∙ ground arith

  Reads-mixed : (n : ℕ) → suc n < length ds → Reads (pos (suc n))
  unfolding with_point ◌+ℤ◌ codes
  Reads-mixed n h =
      let text : with_point (pos (suc n)) ds ≡ c ∷ (take n s ++ (b'.' ∷ drop n s)) = ground arith in
      ap (λ (w : Text). unsigned neg (w ++ exponent_text y)) text
      ∙ ap (λ (w : Text). unsigned neg (c ∷ w))
          (append_assoc (take n s) (b'.' ∷ drop n s) (exponent_text y))
      ∙ unsigned-point neg c (take n s) (drop n s) y (digits_all.0, take-digits n s digits_all.1)
          (drop-digits n s digits_all.1)
      ∙ ground (arith, take-append-drop n s, length-drop n s)

  Reads-whole : (n : ℕ) → length ds ≡ suc n → Reads (pos (suc n))
  unfolding with_point ◌+ℤ◌ codes zeros
  Reads-whole n h =
      let none_left : suc n - length ds ≡ 0 = omega arith in
      let text : with_point (pos (suc n)) ds ≡ ds =
        ground (arith, append-nil s, ap zeros none_left) in
      ap (λ (w : Text). unsigned neg (w ++ exponent_text y)) text
      ∙ unsigned-whole neg c s y digits_all
      ∙ ground arith

  Reads-place : (place : ℤ) → IsFull place (length ds) → Reads place
  Reads-place (negsuc n) full = Reads-small n
  Reads-place (pos zero) full = Reads-fraction
  Reads-place (pos (suc n)) full = elim (Bool-cases (leb (length ds) (suc n))) [
    | inl short ↦ Reads-whole n (ground (arith, full))
    | inr long ↦ Reads-mixed n (ground arith)
  ]

  -- it begins with a digit, so no sign is taken off
  signed_place :
      (place : ℤ)
      → signed (with_point place ds ++ exponent_text y)
        ≡ unsigned false (with_point place ds ++ exponent_text y)
  unfolding with_point signed codes
  signed_place (negsuc n) = refl
  signed_place (pos zero) = refl
  signed_place (pos (suc n)) = ground arith

-- the characters of a printed Decimal
abbrev IsNumeric : ℕ → Type 0
IsNumeric c = (43 ≤ c) × (c ≤ 69)

All-IsNumeric : (s : Text) → All IsDigit s → All IsNumeric s
All-IsNumeric [] h = tt
All-IsNumeric (c ∷ s) h = (omega arith, All-IsNumeric s h.1)

All-IsNumeric-IsInk : (s : Text) → All IsNumeric s → All IsInk s
All-IsNumeric-IsInk [] h = tt
All-IsNumeric-IsInk (c ∷ s) h = (omega arith, All-IsNumeric-IsInk s h.1)

without_underscores-numeric : (s : Text) → All IsNumeric s → without_underscores s ≡ s
unfolding without_underscores
without_underscores-numeric [] h = refl
without_underscores-numeric (c ∷ s) h = ground (arith, without_underscores-numeric s h.1)

exponent_text-IsNumeric : (x : ℤ) → All IsNumeric (exponent_text x)
unfolding exponent_text codes
exponent_text-IsNumeric (pos zero) = tt
exponent_text-IsNumeric (pos (suc n)) =
    (omega arith, (omega arith, All-IsNumeric (print_ℕ (suc n)) (print_ℕ-digits (suc n))))
exponent_text-IsNumeric (negsuc n) =
    (omega arith, (omega arith, All-IsNumeric (print_ℕ (suc n)) (print_ℕ-digits (suc n))))

with_point-IsNumeric :
    (place : ℤ) (ds : Text) → All IsDigit ds → All IsNumeric (with_point place ds)
unfolding with_point codes
with_point-IsNumeric (negsuc n) ds h = (
  omega arith,
  (
    omega arith,
    All-IsNumeric (zeros (suc n) ++ ds)
        (All-append IsDigit (zeros (suc n)) ds (zeros-digits (suc n)) h),
  ),
)
with_point-IsNumeric (pos zero) ds h = (omega arith, (omega arith, All-IsNumeric ds h))
with_point-IsNumeric (pos (suc n)) ds h = elim (Bool-cases (leb (length ds) (suc n))) [
  | inl short ↦ rw short (
      All-IsNumeric (ds ++ zeros (suc n - length ds))
        (All-append IsDigit ds (zeros (suc n - length ds)) h (zeros-digits (suc n - length ds))))
  | inr long ↦ rw long (
      All-append IsNumeric (take (suc n) ds) (b'.' ∷ drop (suc n) ds)
        (All-IsNumeric (take (suc n) ds) (take-digits (suc n) ds h))
        (omega arith, All-IsNumeric (drop (suc n) ds) (drop-digits (suc n) ds h)))
]

-- a sign and a body that begins with a digit
signed_lem :
    (neg : Bool) (body : Text) (d : Decimal)
    → signed body ≡ unsigned false body
    → unsigned neg body ≡ some d
    → signed ((if neg then b'-' ∷ [] else []) ++ body) ≡ some d
unfolding signed
signed_lem true body d h e = e
signed_lem false body d h e = h ∙ e

parse_signed : (t : Text) → All IsNumeric t → parse_decimal t ≡ signed t
unfolding parse_decimal
parse_signed t h =
    ground (arith, strip-ink t (All-IsNumeric-IsInk t h), without_underscores-numeric t h)

-- the parts of `print_decimal`, by the exponent and the number of digits
module _ (x : ℤ) (l : ℕ) where
  abbrev left : ℤ
  left = x +ℤ pos l

  abbrev is_plain : Bool
  is_plain = not (ltb_ℤ (pos 0) x) && ltb_ℤ (negsuc 5) left

  abbrev place : ℤ
  place = if is_plain then left else pos 1

  abbrev power : ℤ
  power = left +ℤ sub_ℕ (neg_part place) (pos_part place)

  place-IsFull : 0 < l → IsFull place l
  unfolding ◌+ℤ◌
  place-IsFull h k = ground arith

-- to move the point to a place, and to say so behind the `E`, is to change nothing
power-place :
    (left place x : ℤ) (l : ℕ)
    → left ≡ x +ℤ pos l
    → left +ℤ sub_ℕ (neg_part place) (pos_part place) +ℤ minus place l ≡ x
power-place left place x l e =
    let back = sub_ℕ (neg_part place) (pos_part place) in
    let off = sub_ℕ 0 l in
    eq_of_parts _ _ (
      ground (
        arith,
        +ℤ_parts x (pos l),
        +ℤ_parts left back,
        +ℤ_parts place off,
        +ℤ_parts (left +ℤ back) (place +ℤ off),
      ))

print_ℕ-ne-nil : (n : ℕ) → print_ℕ n ≢ []
unfolding digits
print_ℕ-ne-nil n e = absurd (ground (arith, digits-print_ℕ n))

parse_printed :
    (neg : Bool) (c : ℕ) (s : Text) (at y : ℤ)
    → All IsDigit (c ∷ s)
    → IsFull at (suc (length s))
    → parse_decimal ((if neg then b'-' ∷ [] else []) ++ (with_point at (c ∷ s) ++ exponent_text y))
      ≡ some (decimal neg (val 0 (c ∷ s)) (y +ℤ minus at (suc (length s))))
parse_printed neg c s at y h full =
    let body = with_point at (c ∷ s) ++ exponent_text y in
    let whole = (if neg then b'-' ∷ [] else []) ++ body in
    parse_signed whole (
      signed-IsNumeric neg body (
        All-append IsNumeric (with_point at (c ∷ s)) (exponent_text y)
          (with_point-IsNumeric at (c ∷ s) h) (exponent_text-IsNumeric y)))
    ∙ signed_lem neg body _ (signed_place neg c s h y at) (Reads-place neg c s h y at full)
  where
    signed-IsNumeric :
        (n : Bool) (t : Text) → All IsNumeric t → All IsNumeric ((if n then b'-' ∷ [] else []) ++ t)
    signed-IsNumeric true t k = (omega arith, k)
    signed-IsNumeric false t k = k

parse_print_of :
    (d : Decimal) (ds : Text)
    → All IsDigit ds
    → ds ≢ []
    → val 0 ds ≡ d.coeff
    → let at = place d.exp (length ds) in
      parse_decimal (
        (if d.neg then b'-' ∷ [] else [])
        ++ (with_point at ds
            ++ exponent_text (left d.exp (length ds) +ℤ sub_ℕ (neg_part at) (pos_part at))))
      ≡ some d
parse_print_of d [] h ne e = absurd (ne refl)
parse_print_of d (c ∷ s) h ne e =
    let l = suc (length s) in
    let at = place d.exp l in
    let y = left d.exp l +ℤ sub_ℕ (neg_part at) (pos_part at) in
    parse_printed d.neg c s at y h (place-IsFull d.exp l (omega arith))
    ∙ rw (power-place (left d.exp l) at d.exp l refl, e) refl

-- A printed Decimal reads back as it was: its sign, also that of a zero, its digits and its exponent.
pub parse_decimal-print_decimal : (d : Decimal) → parse_decimal (print_decimal d) ≡ some d
unfolding print_decimal
parse_decimal-print_decimal d =
    parse_print_of d (print_ℕ d.coeff) (print_ℕ-digits d.coeff) (print_ℕ-ne-nil d.coeff)
      (val-print_ℕ d.coeff)
