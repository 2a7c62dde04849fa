-- ===== src/Strings.antt =====
-- The methods of Python's `str` and `int` that the program calls, over lists of code points. Digits
-- are the ASCII digits, and letters change case as the ASCII letters do.
pub mod Digits
pub mod Ints
use fembin.Base.{
  ℕ, zero, suc, ◌+◌, ◌-◌, ◌*◌, ◌/◌, ◌%◌, Text, codes, text_eq, Option, none, some, List, [], ◌∷◌,
  ◌++◌, Bool, true, false, ◌&&◌, ◌||◌, ltb, leb, ◌==◌, if◌then◌else◌, map, length, drop,
}
use fembin.Base.Int.{ℤ, pos, negsuc}

-- `str.isspace` of one character
unfoldable pub is_space : ℕ → Bool
is_space c =
    leb 9 c && leb c 13
    || leb 28 c && leb c 32
    || c == 133
    || c == 160
    || c == 0x1680
    || leb 0x2000 c && leb c 0x200a
    || c == 0x2028
    || c == 0x2029
    || c == 0x202f
    || c == 0x205f
    || c == 0x3000

unfoldable pub lstrip : Text → Text
lstrip [] = []
lstrip (c ∷ s) = if is_space c then lstrip s else c ∷ s

abbrev cons_unless_space : ℕ → Text → Text
cons_unless_space c [] = if is_space c then [] else c ∷ []
cons_unless_space c (d ∷ s) = c ∷ d ∷ s

unfoldable pub rstrip : Text → Text
rstrip [] = []
rstrip (c ∷ s) = cons_unless_space c (rstrip s)

unfoldable pub strip : Text → Text
unfolding lstrip rstrip is_space
strip s = rstrip (lstrip s)

abbrev pub lower_char : ℕ → ℕ
lower_char c = if leb b'A' c && leb c b'Z' then c + 32 else c

-- s.lower()
unfoldable pub lower : Text → Text
lower [] = []
lower (c ∷ s) = lower_char c ∷ lower s

unfoldable pub starts_with : Text → Text → Bool
starts_with [] s = true
starts_with (p ∷ ps) [] = false
starts_with (p ∷ ps) (c ∷ s) = p == c && starts_with ps s

-- what follows a prefix
unfoldable pub strip_prefix : Text → Text → Option Text
strip_prefix [] s = some s
strip_prefix (p ∷ ps) [] = none
strip_prefix (p ∷ ps) (c ∷ s) = if p == c then strip_prefix ps s else none

-- s.replace(old, new), from the left and without overlaps: `skip` characters are still to be
-- passed over
unfoldable pub replace_go : Text → Text → ℕ → Text → Text
unfolding starts_with
replace_go old new skip [] = []
replace_go old new (suc skip) (c ∷ s) = replace_go old new skip s
replace_go old new zero (c ∷ s) =
    let hit = starts_with old (c ∷ s) in
    (if hit then new else c ∷ []) ++ replace_go old new (if hit then length old - 1 else 0) s

-- for an `old` that is not empty
unfoldable pub replace : Text → Text → Text → Text
unfolding replace_go
replace old new s = replace_go old new 0 s

unfoldable pub is_digit : ℕ → Bool
is_digit c = leb 48 c && leb c 57

unfoldable pub parse_digits : ℕ → Text → Option ℕ
unfolding is_digit
parse_digits acc [] = some acc
parse_digits acc (c ∷ s) = if is_digit c then parse_digits (acc * 10 + (c - 48)) s else none

-- the number that `(\d+)` captures where it must take the whole text
unfoldable pub digits : Text → Option ℕ
unfolding parse_digits
digits [] = none
digits (c ∷ s) = parse_digits 0 (c ∷ s)

-- digits with single underscores between them; the flag says that a digit stands before
int_go : Bool → ℕ → Text → Option ℕ
int_go after_digit acc [] = if after_digit then some acc else none
int_go after_digit acc (c ∷ s) = elim (is_digit c) [
  | true ↦ int_go true (acc * 10 + (c - 48)) s
  | false ↦ elim (c == b'_' && after_digit) [ true ↦ int_go false acc s | false ↦ none ]
]

abbrev negate : ℕ → ℤ
negate zero = pos 0
negate (suc n) = negsuc n

signed : Text → Option ℤ
unfolding int_go is_digit
signed [] = none
signed (c ∷ s) =
    if c == b'-'
    then elim (int_go false 0 s) [ none ↦ none | some n ↦ some (negate n) ]
    else if c == b'+'
    then elim (int_go false 0 s) [ none ↦ none | some n ↦ some (pos n) ]
    else elim (int_go false 0 (c ∷ s)) [ none ↦ none | some n ↦ some (pos n) ]

-- int(s); `none` is a ValueError
unfoldable pub parse_int : Text → Option ℤ
unfolding signed strip
parse_int s = signed (strip s)

-- the decimal digits of a number, in front of `acc`
unfoldable pub print_go : ℕ → ℕ → Text → Text
print_go zero n acc = acc
print_go (suc fuel) n acc =
    let rest = print_go fuel (n / 10) ((48 + n % 10) ∷ acc) in
    if ltb n 10 then (48 + n) ∷ acc else rest

-- str(n)
unfoldable pub print_ℕ : ℕ → Text
unfolding print_go
print_ℕ n = print_go (suc n) n []

unfoldable pub print_ℤ : ℤ → Text
unfolding print_ℕ
print_ℤ (pos n) = print_ℕ n
print_ℤ (negsuc n) = b'-' ∷ print_ℕ (suc n)
