-- ===== src/Busy/XmlText.antt =====
-- app/busy/xml_util.py: XML entities. A numeric reference past the last code point makes `chr`
-- raise.
pub mod RoundTrip
use fembin.Base.{
  ℕ, zero, suc, ◌+◌, ◌-◌, ◌*◌, Text, codes, Option, none, some, List, [], ◌∷◌, ◌++◌, Bool, true,
  false, ◌&&◌, leb, ◌==◌, if◌then◌else◌, length,
}
use fembin.Exec.{Result, ok, err}
use fembin.Errors.{Exn, value_error, overflow_error}
use fembin.Strings.{replace, strip_prefix, is_digit}

-- `_NAMED_ENTITIES`, one replacement after the other
unfoldable pub decode_named : Text → Text
unfolding codes replace
decode_named s = replace (codes "&apos;") (codes "'") (
    replace (codes "&quot;") (codes "\"")
      (replace (codes "&gt;") (codes ">") (replace (codes "&lt;") (codes "<") s)))

abbrev pub dec_digit : ℕ → Option ℕ
dec_digit c = if is_digit c then some (c - 48) else none

abbrev pub hex_digit : ℕ → Option ℕ
hex_digit c =
    if is_digit c
    then some (c - 48)
    else if leb b'a' c && leb c b'f'
    then some (c - 87)
    else if leb b'A' c && leb c b'F'
    then some (c - 55)
    else none

-- `[digits]+;` : the value, and how many characters were read
ref_digits : (ℕ → Option ℕ) → ℕ → Bool → ℕ → ℕ → Text → Option (ℕ × ℕ)
ref_digits digit base seen acc n [] = none
ref_digits digit base seen acc n (c ∷ s) = elim (digit c) [
  | some d ↦ ref_digits digit base true (acc * base + d) (n + 1) s
  | none ↦ if seen && c == b';' then some (acc, n + 1) else none
]

-- a numeric reference at the head of the text, with its whole length
ref_at : Text → (ℕ → Option ℕ) → ℕ → Text → Option (ℕ × ℕ)
ref_at opening digit base s = elim (strip_prefix opening s) [
  | none ↦ none
  | some rest ↦ ref_digits digit base false 0 (length opening) rest
]

abbrev cons_ok : ℕ → Result Exn Text → Result Exn Text
cons_ok c (err e) = err e
cons_ok c (ok s) = ok (c ∷ s)

-- `chr(int(...))` of a reference of n characters: `int` takes 4300 decimal digits at most, and
-- `chr` an int of C that is a code point
ref_char : ℕ → ℕ → ℕ → Result Exn ℕ
ref_char base n v =
    if base == 10 && leb 4304 n
    then err value_error
    else if leb v 0x10ffff
    then ok v
    else if leb v 0x7fffffff
    then err value_error
    else err overflow_error

-- re.sub of the references by `chr`
unfoldable pub sub_refs : Text → (ℕ → Option ℕ) → ℕ → ℕ → Text → Result Exn Text
unfolding ref_at ref_digits ref_char strip_prefix is_digit
sub_refs opening digit base skip [] = ok []
sub_refs opening digit base (suc skip) (c ∷ s) = sub_refs opening digit base skip s
sub_refs opening digit base zero (c ∷ s) = elim (ref_at opening digit base (c ∷ s)) [
  | none ↦ cons_ok c (sub_refs opening digit base 0 s)
  | some (v, n) ↦ elim (ref_char base n v) [
    | ok c ↦ cons_ok c (sub_refs opening digit base (n - 1) s)
    | err e ↦ err e
  ]
]

unfoldable pub decode_refs : Text → Result Exn Text
unfolding sub_refs codes
decode_refs s = elim (sub_refs (codes "&#x") hex_digit 16 0 s) [
  | err e ↦ err e
  | ok t ↦ sub_refs (codes "&#") dec_digit 10 0 t
]

-- `&amp;` last
unfoldable pub decode_xml_entities : Text → Result Exn Text
decode_xml_entities s = elim (decode_refs (decode_named s)) [
  | err e ↦ err e
  | ok t ↦ ok (replace (codes "&amp;") (codes "&") t)
]

unfoldable pub encode_xml_entities : Text → Text
unfolding codes replace
encode_xml_entities s =
    replace (codes ">") (codes "&gt;")
      (replace (codes "<") (codes "&lt;") (replace (codes "&") (codes "&amp;") s))
