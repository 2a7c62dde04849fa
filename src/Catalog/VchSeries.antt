-- ===== src/Catalog/VchSeries.antt =====
-- app/domain/catalog/vch_series.py: `resolve_vch_series` and `sync_vch_series`. A branch whose rows all have a blank series code makes `max` of nothing, a ValueError.
pub mod MostUsed
use fembin.Base.{
  ℕ, ◌+◌, Text, codes, text_eq, Option, none, some, List, [], ◌∷◌, ◌++◌, Bool, true, false, ltb,
  ◌==◌, ◌&&◌, if◌then◌else◌,
}
use fembin.Base.Int.{ℤ, ltb_ℤ}
use fembin.Base.Dict.{lookup, insert}
use fembin.Exec.{Exec, Result, ok, err, pure, raise, lift, gets, modify, and_then, ◌>>=◌, ◌>>◌}
use fembin.Errors.{Exn, value_error, vch_series_unresolved, or_error}
use fembin.Strings.{strip, digits, parse_int, print_ℕ, print_ℤ}
use fembin.Table.{update_row}
use fembin.Db.{Db, MaterialCenter, Session, State, on_net}
use fembin.Busy.Client.{BusyClient, run_query}
use fembin.Busy.Constants.{vch_type, sale_quotation}
use fembin.Busy.Rowset.{Row, get_or_empty, parse_rowset_xml}
use fembin.Catalog.Stamps.{on_now, commit_session}

-- row.get("VchSeriesCode", "").strip()
unfoldable pub series_code : Row → Text
series_code row = strip (get_or_empty (codes "VchSeriesCode") row)

abbrev pub Counts : Type 0
Counts = List (Text × ℕ)

abbrev pub or_zero : Option ℕ → ℕ
or_zero none = 0
or_zero (some n) = n

unfoldable pub count_of : Text → Counts → ℕ
count_of code counts = or_zero (lookup code counts)

-- `if code: counts[code] = counts.get(code, 0) + 1`
unfoldable pub count_code : Text → Counts → Counts
count_code [] counts = counts
count_code (c ∷ code) counts = insert (c ∷ code) (count_of (c ∷ code) counts + 1) counts

unfoldable pub count_rows : Counts → List Row → Counts
count_rows counts [] = counts
count_rows counts (row ∷ rows) = count_rows (count_code (series_code row) counts) rows

-- the first of the keys whose count is largest
unfoldable pub max_key : Counts → Text → List (Text × ℕ) → Text
max_key counts best [] = best
max_key counts best ((code, n) ∷ rest) =
    max_key counts (if ltb (count_of best counts) (count_of code counts) then code else best) rest

unfoldable pub winning_series_code : List Row → Option Text
winning_series_code rows = elim (count_rows [] rows) [
  | [] ↦ none
  | (code, n) ∷ rest ↦ some (max_key (count_rows [] rows) code rest)
]

unfoldable pub candidates : Text → List Row → List Row
candidates code [] = []
candidates code (row ∷ rows) =
    let rest = candidates code rows in if text_eq (series_code row) code then row ∷ rest else rest

-- int(r.get("VchCode", "0") or "0")
abbrev pub or_nought : Option Text → Text
or_nought none = codes "0"
or_nought (some []) = codes "0"
or_nought (some (c ∷ t)) = c ∷ t

unfoldable pub vch_code_of : Row → Result Exn ℤ
vch_code_of row = or_error value_error (parse_int (or_nought (lookup (codes "VchCode") row)))

-- the first of the rows whose code is largest; every code must be a number
unfoldable pub most_recent : Row → ℤ → List Row → Result Exn Row
most_recent best code [] = ok best
most_recent best code (row ∷ rows) =
    and_then (vch_code_of row) (λ c.
      most_recent (if ltb_ℤ code c then row else best) (if ltb_ℤ code c then c else code) rows)

unfoldable pub most_recent_of : List Row → Result Exn Row
most_recent_of [] = err value_error
most_recent_of (row ∷ rows) = and_then (vch_code_of row) (λ c. most_recent row c rows)

-- `^(.*)-(\d+)\s*$` on a stripped text: what stands before the last dash, if only digits follow
unfoldable pub vch_no_prefix : Text → Option Text
vch_no_prefix [] = none
vch_no_prefix (c ∷ s) = elim (vch_no_prefix s) [
  | some prefix ↦ if c == 10 then none else some (c ∷ prefix)
  | none ↦ if c == b'-' then elim (digits s) [ none ↦ none | some n ↦ some [] ] else none
]

unfoldable pub series_of : Row → Result Exn (Text × Text)
series_of row = elim (series_code row) [
  | [] ↦ err vch_series_unresolved
  | c ∷ code ↦ elim (vch_no_prefix (strip (get_or_empty (codes "VchNo") row))) [
    | none ↦ err vch_series_unresolved
    | some prefix ↦ ok (c ∷ code, prefix)
  ]
]

-- the name of the first row with the code
unfoldable pub series_name : Text → List Row → Text
series_name code [] = []
series_name code (row ∷ rows) =
    if text_eq (strip (get_or_empty (codes "Code") row)) code
    then strip (get_or_empty (codes "Name") row)
    else series_name code rows

unfoldable pub winner : List Row → Result Exn (Text × Text)
winner [] = err vch_series_unresolved
winner (row ∷ rows) =
    and_then (or_error value_error (winning_series_code (row ∷ rows)))
      (λ code. and_then (most_recent_of (candidates code (row ∷ rows))) series_of)

unfoldable pub named_series : Text → Text → Result Exn (Text × Text)
named_series [] prefix = err vch_series_unresolved
named_series (c ∷ name) prefix = ok (c ∷ name, prefix)

-- a call whose exception is a value
abbrev pub caught : {W A : Type 0} → Exec Exn W A → Exec Exn W (Result Exn A)
caught m w = let (r, w') = m w in (ok r, w')

module _ {W : Type 0} (client : BusyClient W) where
  unfoldable pub resolve_vch_series : ℤ → Exec Exn W (Text × Text)
  resolve_vch_series material_center_code = do
    xml ← run_query client (
        codes "SELECT VchCode, VchSeriesCode, VchNo FROM Tran1 WHERE MasterCode2 = "
        ++ (print_ℤ material_center_code
            ++ (codes " AND VchType = " ++ print_ℕ (vch_type sale_quotation))))
    rows ← lift (parse_rowset_xml xml)
    won ← lift (winner rows)
    xml2 ←
        run_query client
          (codes "SELECT Code, Name FROM Master1 WHERE MasterType = 21 AND Code = " ++ won.0)
    series_rows ← lift (parse_rowset_xml xml2)
    lift (named_series (series_name won.0 series_rows) won.1)

  abbrev pub resolved : ℕ → Text × Text → MaterialCenter → MaterialCenter
  resolved now series c = record c {
    vch_series_name = some series.0;
    vch_no_prefix = some series.1;
    vch_series_resolved_at = some now;
  }

  unfoldable pub store_resolved : ℕ → ℤ → Text × Text → Exec Exn (State W) Unit
  store_resolved now code series = do
    on_now (
        modify (λ db. record db {
          material_centers =
              update_row (λ c. c.busy_code) code (resolved now series) db.material_centers;
        }))
    commit_session

  -- what a branch's answer does: an unresolved one is passed over, any other exception ends the loop
  unfoldable pub store_series : ℕ → ℤ → Result Exn (Text × Text) → Exec Exn (State W) Unit
  store_series now code (ok series) = store_resolved now code series
  store_series now code (err vch_series_unresolved) = pure tt
  store_series now code (err e) = raise e

  unfoldable pub sync_centers : ℕ → List ℤ → Exec Exn (State W) Unit
  sync_centers now [] = pure tt
  sync_centers now (code ∷ more) = do
    answer ← on_net (caught (resolve_vch_series code))
    store_series now code answer
    sync_centers now more

  -- is_active and no series yet
  abbrev pub is_unresolved : MaterialCenter → Bool
  is_unresolved c = c.is_active && elim c.vch_series_name [ none ↦ true | some n ↦ false ]

  unfoldable pub unresolved_codes : List MaterialCenter → List ℤ
  unresolved_codes [] = []
  unresolved_codes (c ∷ cs) =
      let rest = unresolved_codes cs in if is_unresolved c then c.busy_code ∷ rest else rest

  unfoldable pub sync_vch_series : ℕ → Exec Exn (State W) Unit
  sync_vch_series now s = sync_centers now (unresolved_codes s.session.now.material_centers) s
