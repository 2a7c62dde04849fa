-- ===== src/Busy/BitColumns.antt =====
-- app/busy/bit_columns.py: truth values and the active flag of a master row.
use fembin.Base.{Text, codes, text_eq, Option, none, some, Bool, not, ◌&&◌, ◌||◌}
use fembin.Base.{[]}
use fembin.Base.Dict.{lookup}
use fembin.Strings.{strip, lower}
use fembin.Busy.Rowset.{Row}

abbrev or_empty : Option Text → Text
or_empty none = []
or_empty (some v) = v

unfoldable pub is_bit_true : Option Text → Bool
unfolding strip lower codes text_eq
is_bit_true v =
    let word = lower (strip (or_empty v)) in text_eq word (codes "true") || text_eq word (codes "1")

unfoldable pub is_master_active : Row → Bool
unfolding is_bit_true lookup
is_master_active row =
    not (is_bit_true (lookup (codes "BlockedMaster") row))
    && not (is_bit_true (lookup (codes "DeactiveMaster") row))
