-- ===== src/Busy/VchNumbering.antt =====
-- app/busy/vch_numbering.py: the next free voucher number of a prefix.
pub mod Fresh
use fembin.Base.{ℕ, ◌+◌, Text, codes, Option, none, some, List, [], ◌∷◌, ◌++◌, ltb, if◌then◌else◌}
use fembin.Exec.{Exec, pure, lift, ◌>>=◌}
use fembin.Errors.{Exn, value_error, or_error}
use fembin.Strings.{strip, strip_prefix, digits, print_ℕ}
use fembin.Busy.Client.{BusyClient, run_query}
use fembin.Busy.Rowset.{Row, get_or_empty, parse_rowset_xml}

-- what `^<prefix>-(\d+)$` captures
unfoldable pub vch_no_match : Text → Text → Option ℕ
vch_no_match prefix vch_no = elim (strip_prefix (prefix ++ codes "-") vch_no) [
  | none ↦ none
  | some n ↦ digits n
]

abbrev pub row_vch_no : Row → Text
row_vch_no row = strip (get_or_empty (codes "VchNo") row)

abbrev larger : ℕ → Option ℕ → ℕ
larger m none = m
larger m (some n) = if ltb m n then n else m

-- the loop over the rows
unfoldable pub max_n : Text → ℕ → List Row → ℕ
unfolding vch_no_match
max_n prefix m [] = m
max_n prefix m (row ∷ rows) = max_n prefix (larger m (vch_no_match prefix (row_vch_no row))) rows

unfoldable pub next_vch_no : Text → List Row → Text
unfolding max_n
next_vch_no prefix rows = (prefix ++ codes "-") ++ print_ℕ (max_n prefix 0 rows + 1)

abbrev pub vch_no_sql : ℕ → Text → Text
vch_no_sql vch_type prefix =
    codes "SELECT VchNo FROM Tran1 WHERE VchType="
    ++ (print_ℕ vch_type ++ (codes " AND LTRIM(VchNo) LIKE '" ++ (prefix ++ codes "-%'")))

module _ {W : Type 0} (client : BusyClient W) where
  unfoldable pub get_next_vch_no : ℕ → Text → Exec Exn W Text
  get_next_vch_no vch_type prefix = do
    xml ← run_query client (vch_no_sql vch_type prefix)
    rows ← lift (parse_rowset_xml xml)
    pure (next_vch_no prefix rows)
