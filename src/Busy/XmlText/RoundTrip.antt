-- ===== src/Busy/XmlText/RoundTrip.antt =====
-- Decoding what was encoded. Encoded text is followed through the replacements as the text with
-- some of the three characters spelled out.
use fembin.Base.{
  ℕ, ◌≡◌, ◌≢◌, refl, ap, sym, ◌∙◌, Text, codes, Option, [], ◌∷◌, ◌++◌, Bool, true, false, ◌==◌,
  if◌then◌else◌, arith, All,
}
use mathlib.Core.Path.{subst}
use native.Mathlib.Decide.{ℕ_discrete}
use fembin.Exec.{Result, ok, err}
use fembin.Errors.{Exn}
use fembin.Strings.{replace_go, replace}
use fembin.Busy.XmlText.{
  dec_digit, hex_digit, sub_refs, decode_named, decode_refs, decode_xml_entities,
  encode_xml_entities,
}

-- which of `&`, `<` and `>` are spelled out
spelled : Bool → Bool → Bool → ℕ → Text
unfolding codes
spelled amp lt gt c =
    if c == b'&'
    then if amp then codes "&amp;" else c ∷ []
    else if c == b'<'
    then if lt then codes "&lt;" else c ∷ []
    else if c == b'>'
    then if gt then codes "&gt;" else c ∷ []
    else c ∷ []

spread : (ℕ → Text) → Text → Text
spread e [] = []
spread e (c ∷ s) = e c ++ spread e s

spread-none : (s : Text) → spread (spelled false false false) s ≡ s
unfolding spread spelled
spread-none [] = refl
spread-none (c ∷ s) = ground (arith, spread-none s)

data Kind (c : ℕ) : Type 0 where
  amp : c ≡ b'&' → Kind c
  lt : c ≡ b'<' → Kind c
  gt : c ≡ b'>' → Kind c
  plain : c ≢ b'&' → c ≢ b'<' → c ≢ b'>' → Kind c

kind : (c : ℕ) → Kind c
kind c = elim (ℕ_discrete c b'&') [
  | yes e ↦ amp e
  | no h ↦ elim (ℕ_discrete c b'<') [
    | yes e ↦ lt e
    | no k ↦ elim (ℕ_discrete c b'>') [ yes e ↦ gt e | no l ↦ plain h k l ]
  ]
]

-- A replacement acts on the image of each character, whatever follows.
abbrev Acts : Text → Text → (ℕ → Text) → (ℕ → Text) → Type 0
Acts old new e e' =
    (c : ℕ) (t : Text) → replace_go old new 0 (e c ++ t) ≡ e' c ++ replace_go old new 0 t

module _ (old new : Text) (e e' : ℕ → Text) where
  replace-spread : Acts old new e e' → (s : Text) → replace_go old new 0 (spread e s) ≡ spread e' s
  unfolding spread
  replace-spread h [] = unfold replace_go in refl
  replace-spread h (c ∷ s) = h c (spread e s) ∙ ap (λ (t : Text). e' c ++ t) (replace-spread h s)

  abbrev At : ℕ → Type 0
  At c = (t : Text) → replace_go old new 0 (e c ++ t) ≡ e' c ++ replace_go old new 0 t

  by_kind :
      At b'&'
      → At b'<'
      → At b'>'
      → ((c : ℕ) (t : Text)
          → c ≢ b'&'
          → c ≢ b'<'
          → c ≢ b'>'
          → replace_go old new 0 (e c ++ t) ≡ e' c ++ replace_go old new 0 t)
      → Acts old new e e'
  by_kind a l g p c t = elim (kind c) [
    | amp h ↦ subst At (sym h) a t
    | lt h ↦ subst At (sym h) l t
    | gt h ↦ subst At (sym h) g t
    | plain h k m ↦ p c t h k m
  ]

encode_amp : Acts (codes "&") (codes "&amp;") (spelled false false false) (spelled true false false)
unfolding spelled codes replace_go
encode_amp =
    by_kind (codes "&") (codes "&amp;") (spelled false false false) (spelled true false false)
      (λ t. refl) (λ t. refl) (λ t. refl) (λ c t h k l. ground arith)

encode_lt : Acts (codes "<") (codes "&lt;") (spelled true false false) (spelled true true false)
unfolding spelled codes replace_go
encode_lt =
    by_kind (codes "<") (codes "&lt;") (spelled true false false) (spelled true true false)
      (λ t. refl) (λ t. refl) (λ t. refl) (λ c t h k l. ground arith)

encode_gt : Acts (codes ">") (codes "&gt;") (spelled true true false) (spelled true true true)
unfolding spelled codes replace_go
encode_gt =
    by_kind (codes ">") (codes "&gt;") (spelled true true false) (spelled true true true)
      (λ t. refl) (λ t. refl) (λ t. refl) (λ c t h k l. ground arith)

decode_lt : Acts (codes "&lt;") (codes "<") (spelled true true true) (spelled true false true)
unfolding spelled codes replace_go
decode_lt =
    by_kind (codes "&lt;") (codes "<") (spelled true true true) (spelled true false true)
      (λ t. refl) (λ t. refl) (λ t. refl) (λ c t h k l. ground arith)

decode_gt : Acts (codes "&gt;") (codes ">") (spelled true false true) (spelled true false false)
unfolding spelled codes replace_go
decode_gt =
    by_kind (codes "&gt;") (codes ">") (spelled true false true) (spelled true false false)
      (λ t. refl) (λ t. refl) (λ t. refl) (λ c t h k l. ground arith)

decode_quot :
    Acts (codes "&quot;") (codes "\"") (spelled true false false) (spelled true false false)
unfolding spelled codes replace_go
decode_quot =
    by_kind (codes "&quot;") (codes "\"") (spelled true false false) (spelled true false false)
      (λ t. refl) (λ t. refl) (λ t. refl) (λ c t h k l. ground arith)

decode_apos :
    Acts (codes "&apos;") (codes "'") (spelled true false false) (spelled true false false)
unfolding spelled codes replace_go
decode_apos =
    by_kind (codes "&apos;") (codes "'") (spelled true false false) (spelled true false false)
      (λ t. refl) (λ t. refl) (λ t. refl) (λ c t h k l. ground arith)

decode_amp : Acts (codes "&amp;") (codes "&") (spelled true false false) (spelled false false false)
unfolding spelled codes replace_go
decode_amp =
    by_kind (codes "&amp;") (codes "&") (spelled true false false) (spelled false false false)
      (λ t. refl) (λ t. refl) (λ t. refl) (λ c t h k l. ground arith)

no_tag : (s : Text) → All (λ c. (c ≢ b'<') × (c ≢ b'>')) (spread (spelled true true true) s)
unfolding spread spelled codes
no_tag [] = tt
no_tag (c ∷ s) = ground (arith, no_tag s)

encode-spread : (s : Text) → encode_xml_entities s ≡ spread (spelled true true true) s
unfolding encode_xml_entities
encode-spread s =
    ap
      (λ (t : Text).
        replace (codes ">") (codes "&gt;")
          (replace (codes "<") (codes "&lt;") (replace (codes "&") (codes "&amp;") t)))
      (sym (spread-none s))
    ∙ ap (λ (t : Text). replace (codes ">") (codes "&gt;") (replace (codes "<") (codes "&lt;") t))
        (replace-spread (codes "&") (codes "&amp;") (spelled false false false)
          (spelled true false false) encode_amp s)
    ∙ ap (λ (t : Text). replace (codes ">") (codes "&gt;") t)
        (replace-spread (codes "<") (codes "&lt;") (spelled true false false)
          (spelled true true false) encode_lt s)
    ∙ replace-spread (codes ">") (codes "&gt;") (spelled true true false) (spelled true true true)
        encode_gt s

decode_named-spread :
    (s : Text)
    → decode_named (spread (spelled true true true) s) ≡ spread (spelled true false false) s
unfolding decode_named
decode_named-spread s =
    rw
      (replace-spread (codes "&lt;") (codes "<") (spelled true true true) (spelled true false true)
        decode_lt s)
      (rw
        (replace-spread (codes "&gt;") (codes ">") (spelled true false true)
          (spelled true false false) decode_gt s)
        (rw
          (replace-spread (codes "&quot;") (codes "\"") (spelled true false false)
            (spelled true false false) decode_quot s)
          (replace-spread (codes "&apos;") (codes "'") (spelled true false false)
            (spelled true false false) decode_apos s)))

-- No numeric reference begins in text whose `&` are all spelled out.
module _ (rest : Text) (digit : ℕ → Option ℕ) (base : ℕ) where
  abbrev refs : Text → Result Exn Text
  refs = sub_refs (b'&' ∷ b'#' ∷ rest) digit base 0

  abbrev Passes : ℕ → Type 0
  Passes c =
      (t : Text)
      → refs (spelled true false false c ++ t)
        ≡ elim (refs t) [ err e ↦ err e | ok u ↦ ok (spelled true false false c ++ u) ]

  passes : (c : ℕ) → Passes c
  unfolding spelled codes sub_refs
  passes c = elim (kind c) [
    | amp h ↦ subst Passes (sym h) (λ t. ground arith)
    | lt h ↦ subst Passes (sym h) (λ t. ground arith)
    | gt h ↦ subst Passes (sym h) (λ t. ground arith)
    | plain h k m ↦ λ t. ground arith
  ]

  sub_refs-spread :
      (s : Text)
      → refs (spread (spelled true false false) s) ≡ ok (spread (spelled true false false) s)
  unfolding spread
  sub_refs-spread [] = unfold sub_refs in refl
  sub_refs-spread (c ∷ s) =
      ground (arith, passes c (spread (spelled true false false) s), sub_refs-spread s)

decode_refs-spread :
    (s : Text)
    → decode_refs (spread (spelled true false false) s) ≡ ok (spread (spelled true false false) s)
unfolding decode_refs
decode_refs-spread s =
    ground (arith, sub_refs-spread (b'x' ∷ []) hex_digit 16 s, sub_refs-spread [] dec_digit 10 s)

decode_amp_all :
    (s : Text) → replace (codes "&amp;") (codes "&") (spread (spelled true false false) s) ≡ s
unfolding replace
decode_amp_all s =
    replace-spread (codes "&amp;") (codes "&") (spelled true false false)
      (spelled false false false) decode_amp s
    ∙ spread-none s

-- Decoding what was encoded gives the text back, whatever it holds.
pub decode-encode : (s : Text) → decode_xml_entities (encode_xml_entities s) ≡ ok s
unfolding decode_xml_entities
decode-encode s = rw (encode-spread s) (
    rw (decode_named-spread s, decode_xml_entities)
      (rw (decode_refs-spread s, decode_xml_entities) (ap ok (decode_amp_all s))))

-- No `<` and no `>` is left in encoded text, so it cannot open or close a tag.
pub encode_has_no_tag : (s : Text) → All (λ c. (c ≢ b'<') × (c ≢ b'>')) (encode_xml_entities s)
encode_has_no_tag s = rw (encode-spread s) (no_tag s)
