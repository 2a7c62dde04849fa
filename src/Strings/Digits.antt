-- ===== src/Strings/Digits.antt =====
-- Reading back what was printed: `print_ℕ` and the digits of a regular expression.
use fembin.Base.{
  ℕ, zero, suc, ◌+◌, ◌/◌, ◌%◌, ◌<◌, ◌≡◌, ◌≢◌, refl, ◌∙◌, Text, some, [], ◌∷◌, ◌++◌, arith,
}
use fembin.Strings.{parse_digits, digits, print_go, print_ℕ, strip_prefix}

parse_digits-print_go :
    (fuel n : ℕ) (acc : Text) → n < fuel → parse_digits 0 (print_go fuel n acc) ≡ parse_digits n acc
unfolding parse_digits print_go
parse_digits-print_go zero n acc h = absurd (omega arith)
parse_digits-print_go (suc fuel) n acc h =
    ground (arith, parse_digits-print_go fuel (n / 10) ((48 + n % 10) ∷ acc))

print_go-ne-nil : (fuel n : ℕ) (acc : Text) → n < fuel → print_go fuel n acc ≢ []
unfolding print_go
print_go-ne-nil zero n acc h = absurd (omega arith)
print_go-ne-nil (suc fuel) n acc h =
    ground (arith, print_go-ne-nil fuel (n / 10) ((48 + n % 10) ∷ acc))

digits-eq : (s : Text) → s ≢ [] → digits s ≡ parse_digits 0 s
unfolding digits
digits-eq [] h = absurd (h refl)
digits-eq (c ∷ s) h = refl

-- The digits of a printed number are that number.
pub digits-print_ℕ : (n : ℕ) → digits (print_ℕ n) ≡ some n
unfolding print_ℕ
digits-print_ℕ n =
    digits-eq (print_go (suc n) n []) (print_go-ne-nil (suc n) n [] (omega arith))
    ∙ parse_digits-print_go (suc n) n [] (omega arith)
    ∙ (unfold parse_digits in refl)

pub strip_prefix-append : (p s : Text) → strip_prefix p (p ++ s) ≡ some s
unfolding strip_prefix
strip_prefix-append [] s = refl
strip_prefix-append (c ∷ p) s = ground (arith, strip_prefix-append p s)
