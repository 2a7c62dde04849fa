-- ===== src/Strings/Ints.antt =====
-- Reading back what was printed: `print_ℕ` and `int`, and texts that `strip` leaves alone.
use fembin.Base.{
  ℕ, zero, suc, ◌+◌, ◌-◌, ◌*◌, ◌/◌, ◌%◌, ◌≤◌, ◌≡◌, refl, Text, true, some, [], ◌∷◌, ◌++◌, arith,
  All,
}
use fembin.Base.Int.{pos}
use fembin.Strings.{
  is_space, lstrip, rstrip, strip, is_digit, int_go, signed, parse_digits, digits, parse_int,
  print_go, print_ℕ,
}
use fembin.Strings.Digits.{digits-print_ℕ}

abbrev pub IsDigit : ℕ → Type 0
IsDigit c = (48 ≤ c) × (c ≤ 57)

-- a printable character that is no space
abbrev pub IsInk : ℕ → Type 0
IsInk c = (33 ≤ c) × (c ≤ 126)

pub rstrip-ink : (s : Text) → All IsInk s → rstrip s ≡ s
unfolding rstrip is_space
rstrip-ink [] h = refl
rstrip-ink (c ∷ []) h = ground arith
rstrip-ink (c ∷ d ∷ s) h = ground (arith, rstrip-ink (d ∷ s) h.1)

pub strip-ink : (s : Text) → All IsInk s → strip s ≡ s
unfolding strip lstrip is_space
strip-ink [] h = refl
strip-ink (c ∷ s) h = ground (arith, rstrip-ink (c ∷ s) h)

pub All-IsInk : (s : Text) → All IsDigit s → All IsInk s
All-IsInk [] h = tt
All-IsInk (c ∷ s) h = (omega arith, All-IsInk s h.1)

pub All-append : (P : ℕ → Type 0) (s t : Text) → All P s → All P t → All P (s ++ t)
All-append P [] t h k = k
All-append P (c ∷ s) t h k = (h.0, All-append P s t h.1 k)

print_go-digits : (fuel n : ℕ) (acc : Text) → All IsDigit acc → All IsDigit (print_go fuel n acc)
unfolding print_go
print_go-digits zero n acc h = h
print_go-digits (suc fuel) n acc h =
    let rest = print_go-digits fuel (n / 10) ((48 + n % 10) ∷ acc) (omega arith, h) in ground arith

pub print_ℕ-digits : (n : ℕ) → All IsDigit (print_ℕ n)
unfolding print_ℕ
print_ℕ-digits n = print_go-digits (suc n) n [] tt

int_go-digits : (acc : ℕ) (s : Text) → All IsDigit s → int_go true acc s ≡ parse_digits acc s
unfolding int_go parse_digits is_digit
int_go-digits acc [] h = refl
int_go-digits acc (c ∷ s) h = ground (arith, int_go-digits (acc * 10 + (c - 48)) s h.1)

signed-digits : (s : Text) {n : ℕ} → All IsDigit s → digits s ≡ some n → signed s ≡ some (pos n)
unfolding signed digits int_go parse_digits is_digit
signed-digits [] h e = ground arith
signed-digits (c ∷ s) {n} h e = ground (arith, int_go-digits (0 * 10 + (c - 48)) s h.1)

-- int(str(n)) == n
pub parse_int-print_ℕ : (n : ℕ) → parse_int (print_ℕ n) ≡ some (pos n)
unfolding parse_int
parse_int-print_ℕ n =
    let ds = print_ℕ-digits n in
    rw (strip-ink (print_ℕ n) (All-IsInk (print_ℕ n) ds))
      (signed-digits (print_ℕ n) ds (digits-print_ℕ n))
