-- ===== src/Busy/Element.antt =====
-- app/busy/xml_util.py: `parse_element_xml`. The regular expression of a tag is an automaton over
-- the characters behind `<`; the mutable tree under construction is a stack of open elements.
use fembin.Base.{
  ℕ, zero, suc, ◌+◌, ◌-◌, Text, codes, text_eq, Option, none, some, List, [], ◌∷◌, ◌++◌, Bool, true,
  false, ◌||◌, ◌==◌, if◌then◌else◌, length,
}
use fembin.Exec.{Result, ok, err}
use fembin.Errors.{Exn}
use fembin.Strings.{strip, is_space, is_digit}
use fembin.Busy.XmlText.{decode_xml_entities, decode_named, decode_refs}
use fembin.Busy.Rowset.{is_name_char}

pub data Tag : Type 0 where
  opening : Text → Bool → Tag
  closing : Text → Tag

-- where the automaton stands in `(?:\s+[\w:.\-]+=(?:'[^']*'|"[^"]*"))*\s*(/)?>`
pub data TagState : Type 0 where
  in_name after_space in_attr after_equals after_value after_slash : TagState
  in_value : ℕ → TagState

pub data Next : Type 0 where
  fail : Next
  go : TagState → Next
  stop : Bool → Next

-- behind a complete name or value: a space, a slash or the end
abbrev at_end : ℕ → Next
at_end c =
    if is_space c
    then go after_space
    else if c == b'/'
    then go after_slash
    else if c == b'>'
    then stop false
    else fail

unfoldable pub tag_step : TagState → ℕ → Next
unfolding is_space is_digit
tag_step in_name c = if is_name_char c then go in_name else at_end c
tag_step after_space c = if is_name_char c then go in_attr else at_end c
tag_step in_attr c =
    if is_name_char c then go in_attr else if c == b'=' then go after_equals else fail
tag_step after_equals c = if c == 39 || c == 34 then go (in_value c) else fail
tag_step (in_value q) c = if c == q then go after_value else go (in_value q)
tag_step after_value c = at_end c
tag_step after_slash c = if c == b'>' then stop true else fail

-- from a state to the `>`: whether the tag closes itself, and how many characters were read
tag_end : TagState → ℕ → Text → Option (Bool × ℕ)
tag_end st n [] = none
tag_end st n (c ∷ s) = elim (tag_step st c) [
  | fail ↦ none
  | go st' ↦ tag_end st' (n + 1) s
  | stop self ↦ some (self, n + 1)
]

-- the longest run of name characters
name_run : Text → Text
unfolding is_digit
name_run [] = []
name_run (c ∷ s) = let rest = name_run s in if is_name_char c then c ∷ rest else []

close_at : Text → ℕ → Text → Option (Tag × ℕ)
close_at [] skip s = none
close_at (c ∷ n) zero [] = none
close_at (c ∷ n) zero (d ∷ s) =
    if d == b'>' then some (closing (c ∷ n), length (c ∷ n) + 3) else none
close_at (c ∷ n) (suc skip) [] = none
close_at (c ∷ n) (suc skip) (d ∷ s) = close_at (c ∷ n) skip s

open_at : Text → Text → Option (Tag × ℕ)
unfolding tag_end tag_step
open_at [] s = none
open_at (c ∷ n) s = elim (tag_end in_name 1 s) [
  | none ↦ none
  | some (self, k) ↦ some (opening (c ∷ n) self, k)
]

-- a tag at the head of the text, with its length
unfoldable pub tag_at : Text → Option (Tag × ℕ)
unfolding open_at close_at name_run
tag_at [] = none
tag_at (c ∷ []) = none
tag_at (c ∷ d ∷ s) =
    if c == b'<'
    then if d == b'/'
      then close_at (name_run s) (length (name_run s)) s
      else open_at (name_run (d ∷ s)) (d ∷ s)
    else none

-- `_TAG_RE.finditer`: each tag with the text before it
tokens_go : ℕ → Text → Text → List (Text × Tag)
tokens_go skip acc [] = []
tokens_go (suc skip) acc (c ∷ s) = tokens_go skip acc s
tokens_go zero acc (c ∷ s) = elim (tag_at (c ∷ s)) [
  | some (tag, n) ↦ (acc, tag) ∷ tokens_go (n - 1) [] s
  | none ↦ tokens_go 0 (acc ++ c ∷ []) s
]

mutual
  -- `_Node`
  pub data Node : Type 0 where
    node : Text → Nodes → Text → Node

  pub data Nodes : Type 0 where
    nil : Nodes
    cons : Node → Nodes → Nodes

unfoldable pub push_back : Nodes → Node → Nodes
push_back nil n = cons n nil
push_back (cons m ms) n = cons m (push_back ms n)

-- an element that is still open
pub record Frame : Type 0 where
  pub name : Text
  pub children : Nodes
  pub text : Text

abbrev close_frame : Frame → Node
close_frame f = node f.name f.children f.text

abbrev add_child : Node → Frame → Frame
add_child n f = record f { children = push_back f.children n }

-- the top of the stack and the frames below it; the root is never popped
build : Frame → List Frame → List (Text × Tag) → Node
unfolding push_back
build top [] [] = close_frame top
build top (below ∷ stack) [] = build (add_child (close_frame top) below) stack []
build top [] ((before, closing n) ∷ tokens) =
    build (record top { text = top.text ++ before }) [] tokens
build top (below ∷ stack) ((before, closing n) ∷ tokens) =
    build (add_child (close_frame (record top { text = top.text ++ before })) below) stack tokens
build top stack ((before, opening n true) ∷ tokens) =
    build (add_child (node n nil []) (record top { text = top.text ++ before })) stack tokens
build top stack ((before, opening n false) ∷ tokens) =
    build (record { name = n; children = nil; text = [] })
      (record top { text = top.text ++ before } ∷ stack) tokens

mutual
  -- `XmlValue`; a dict's entry is a value or a list of values
  pub data XmlValue : Type 0 where
    text : Text → XmlValue
    dict : XmlFields → XmlValue

  pub data XmlFields : Type 0 where
    end : XmlFields
    field : Text → XmlEntry → XmlFields → XmlFields

  pub data XmlEntry : Type 0 where
    one : XmlValue → XmlEntry
    many : XmlValues → XmlEntry

  pub data XmlValues : Type 0 where
    none_left : XmlValues
    more : XmlValue → XmlValues → XmlValues

unfoldable pub get_entry : Text → XmlFields → Option XmlEntry
get_entry k end = none
get_entry k (field j v d) = if text_eq j k then some v else get_entry k d

append_value : XmlValues → XmlValue → XmlValues
append_value none_left v = more v none_left
append_value (more w ws) v = more w (append_value ws v)

abbrev join : XmlEntry → XmlValue → XmlEntry
join (one w) v = many (more w (more v none_left))
join (many ws) v = many (append_value ws v)

-- the three branches of the loop in `_fold`
unfoldable pub add_entry : Text → XmlValue → XmlFields → XmlFields
unfolding append_value
add_entry k v end = field k (one v) end
add_entry k v (field j w d) =
    if text_eq j k then field j (join w v) d else field j w (add_entry k v d)

abbrev leaf : Result Exn Text → Result Exn XmlValue
leaf (err e) = err e
leaf (ok t) = ok (text t)

abbrev as_dict : Result Exn XmlFields → Result Exn XmlValue
as_dict (err e) = err e
as_dict (ok d) = ok (dict d)

abbrev node_name : Node → Text
node_name (node n _ _) = n

mutual
  unfolding add_entry strip

  fold : Node → Result Exn XmlValue
  fold (node n nil t) = leaf (decode_xml_entities (strip t))
  fold (node n (cons c cs) t) = as_dict (fold_children cs (fold c) (node_name c) end)

  -- the rest of the children, after the value and the name of the current one
  fold_children : Nodes → Result Exn XmlValue → Text → XmlFields → Result Exn XmlFields
  fold_children cs (err e) k d = err e
  fold_children nil (ok v) k d = ok (add_entry k v d)
  fold_children (cons c cs) (ok v) k d = fold_children cs (fold c) (node_name c) (add_entry k v d)

unfoldable pub parse_element_xml : Text → Result Exn XmlValue
unfolding fold fold_children build tokens_go tag_at codes decode_xml_entities decode_named
    decode_refs text_eq
parse_element_xml xml =
    fold
      (build (record { name = codes "#root"; children = nil; text = [] }) [] (tokens_go 0 [] xml))
