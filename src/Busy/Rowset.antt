-- ===== src/Busy/Rowset.antt =====
-- app/busy/xml_util.py: `parse_rowset_xml`. Its three regular expressions are scanners over the
-- text that recur on it; `skip` characters belong to the last match and are passed over.
use fembin.Base.{
  ℕ, zero, suc, Text, codes, text_eq, Option, none, some, List, [], ◌∷◌, ◌++◌, Bool, true, false,
  not, ◌&&◌, ◌||◌, leb, ◌==◌, if◌then◌else◌,
}
use fembin.Base.Dict.{lookup, insert}
use fembin.Exec.{Result, ok, err}
use fembin.Errors.{Exn}
use fembin.Strings.{starts_with, strip_prefix, is_digit}
use fembin.Busy.XmlText.{decode_xml_entities, decode_named, decode_refs}

abbrev pub Row : Type 0
Row = List (Text × Text)

-- `row.get(key, "")`
unfoldable pub get_or_empty : Text → Row → Text
unfolding lookup
get_or_empty key row = elim (lookup key row) [ none ↦ [] | some value ↦ value ]

abbrev pub cons_ok : {A : Type 0} → A → Result Exn (List A) → Result Exn (List A)
cons_ok a (err e) = err e
cons_ok a (ok l) = ok (a ∷ l)

abbrev pub cons_some {ℓ} : {A : Type ℓ} → A → Option (List A) → Option (List A)
cons_some a none = none
cons_some a (some l) = some (a ∷ l)

-- what follows the first occurrence of `pat`
unfoldable pub after : Text → Text → Option Text
after pat [] = none
after pat (c ∷ s) = elim (strip_prefix pat (c ∷ s)) [ some rest ↦ some rest | none ↦ after pat s ]

-- what stands before the first occurrence of `pat`
unfoldable pub until : Text → Text → Option Text
until pat [] = none
until pat (c ∷ s) = elim (strip_prefix pat (c ∷ s)) [
  | some _ ↦ some []
  | none ↦ cons_some c (until pat s)
]

abbrev pub is_word : ℕ → Bool
is_word c = is_digit c || leb b'A' c && leb c b'Z' || leb b'a' c && leb c b'z' || c == b'_'

-- `<z:row` and no word character behind it
row_opens : Text → Bool
unfolding strip_prefix codes is_digit
row_opens s = elim (strip_prefix (codes "<z:row") s) [
  | none ↦ false
  | some [] ↦ true
  | some (c ∷ _) ↦ not (is_word c)
]

-- `<z:row\b(.*?)/>`: the text of each row; inside a row it is collected
rows_go : ℕ → Option Text → Text → List Text
rows_go skip st [] = []
rows_go (suc skip) st (c ∷ s) = rows_go skip st s
rows_go zero none (c ∷ s) = elim (row_opens (c ∷ s)) [
  | true ↦ rows_go 5 (some []) s
  | false ↦ rows_go 0 none s
]
rows_go zero (some acc) (c ∷ s) = elim (starts_with (codes "/>") (c ∷ s)) [
  | true ↦ acc ∷ rows_go 1 none s
  | false ↦ rows_go 0 (some (acc ++ c ∷ [])) s
]

-- `[\w:.\-]`
abbrev pub is_name_char : ℕ → Bool
is_name_char c = is_word c || c == b':' || c == b'.' || c == b'-'

abbrev pub has_char : ℕ → Text → Bool
has_char q [] = false
has_char q (c ∷ s) = c == q || has_char q s

pub data Scan : Type 0 where
  name : Text → Scan
  value : ℕ → Text → Text → Scan

-- a quote that is closed again, behind a name and `=`
opens_value : Text → ℕ → Text → Option ℕ
opens_value [] c s = none
opens_value (n ∷ ns) c [] = none
opens_value (n ∷ ns) c (q ∷ s) =
    if c == b'=' && (q == 39 || q == 34) && has_char q s then some q else none

-- `([\w:.\-]+)=(['"])(.*?)\2`: the names and the raw values
attrs_go : ℕ → Scan → Text → List (Text × Text)
attrs_go skip st [] = []
attrs_go (suc skip) st (c ∷ s) = attrs_go skip st s
attrs_go zero (name acc) (c ∷ s) = elim (is_name_char c) [
  | true ↦ attrs_go 0 (name (acc ++ c ∷ [])) s
  | false ↦ elim (opens_value acc c s) [
    | some q ↦ attrs_go 1 (value q acc []) s
    | none ↦ attrs_go 0 (name []) s
  ]
]
attrs_go zero (value q n acc) (c ∷ s) = elim (c == q) [
  | true ↦ (n, acc) ∷ attrs_go 0 (name []) s
  | false ↦ attrs_go 0 (value q n (acc ++ c ∷ [])) s
]

-- the assignments `row[name] = decode_xml_entities(value)`
fill : List (Text × Text) → Row → Result Exn Row
fill [] row = ok row
fill ((n, v) ∷ l) row = elim (decode_xml_entities v) [
  | err e ↦ err e
  | ok t ↦ fill l (insert n t row)
]

rows_of : List Text → Result Exn (List Row)
unfolding fill attrs_go opens_value
rows_of [] = ok []
rows_of (t ∷ ts) = elim (fill (attrs_go 0 (name []) t) []) [
  | err e ↦ err e
  | ok row ↦ cons_ok row (rows_of ts)
]

unfoldable pub parse_rowset_xml : Text → Result Exn (List Row)
unfolding rows_of rows_go row_opens after until starts_with decode_xml_entities decode_named
    decode_refs insert text_eq codes
parse_rowset_xml xml = elim (after (codes "<rs:data>") xml) [
  | none ↦ ok []
  | some rest ↦ elim (until (codes "</rs:data>") rest) [
    | none ↦ ok []
    | some inner ↦ rows_of (rows_go 0 none inner)
  ]
]
