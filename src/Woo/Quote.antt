-- ===== src/Woo/Quote.antt =====
-- urllib.parse.quote, as app/integrations/woocommerce.py calls it: UTF-8, and `%XX` for each byte that
-- is not a letter, a digit or one of `_.-~/`.
use fembin.Base.{
  ℕ, ◌+◌, ◌/◌, ◌%◌, Text, List, [], ◌∷◌, ◌++◌, Bool, ◌&&◌, ◌||◌, ltb, leb, ◌==◌, if◌then◌else◌,
}
use fembin.Strings.{is_digit}

utf8 : ℕ → List ℕ
utf8 c =
    if ltb c 128
    then c ∷ []
    else if ltb c 2048
    then (192 + c / 64) ∷ (128 + c % 64) ∷ []
    else if ltb c 65536
    then (224 + c / 4096) ∷ (128 + (c / 64) % 64) ∷ (128 + c % 64) ∷ []
    else (240 + c / 262144) ∷ (128 + (c / 4096) % 64) ∷ (128 + (c / 64) % 64) ∷ (128 + c % 64) ∷ []

hex : ℕ → ℕ
hex n = if ltb n 10 then 48 + n else 55 + n

is_safe : ℕ → Bool
is_safe c =
    is_digit c
    || (leb b'a' c && leb c b'z')
    || (leb b'A' c && leb c b'Z')
    || c == b'_'
    || c == b'.'
    || c == b'-'
    || c == b'~'
    || c == b'/'

quote_bytes : List ℕ → Text
unfolding is_safe hex
quote_bytes [] = []
quote_bytes (b ∷ bs) =
    let rest = quote_bytes bs in
    if is_safe b then b ∷ rest else b'%' ∷ hex (b / 16) ∷ hex (b % 16) ∷ rest

unfoldable pub quote : Text → Text
unfolding utf8 quote_bytes
quote [] = []
quote (c ∷ s) = quote_bytes (utf8 c) ++ quote s
