-- ===== src/Scripts/Export.antt =====
-- scripts/export_busy_products_csv.py: the export of all items, which goes on where an earlier run
-- stopped. The detail calls of a batch run concurrently there; here they run one after the other.
-- The file is the list of its rows behind the header, and the pauses are left out.
pub mod Picked
pub mod Batches
pub mod Resumes
use fembin.Base.{
  ℕ, zero, suc, ◌+◌, Text, codes, Option, none, some, List, [], ◌∷◌, ◌++◌, Bool, true, false, not,
  ◌||◌, if◌then◌else◌, map, length, take, drop,
}
use fembin.Base.Dict.{lookup}
use fembin.Base.Int.{ℤ, eqb_ℤ}
use fembin.Exec.{Exec, Result, ok, err, pure, raise, lift, gets, modify, and_then, ◌>>=◌, ◌>>◌}
use fembin.Errors.{
  Exn, busy_error, http_error, value_error, invalid_operation, zero_division, or_error,
}
use fembin.Strings.{print_ℕ}
use fembin.Decimal.{Decimal}
use fembin.Busy.Client.{BusyClient, run_query, get_master_xml}
use fembin.Busy.Constants.{item, master_type}
use fembin.Busy.Element.{XmlValue, XmlFields, XmlEntry, get_entry, parse_element_xml}
use fembin.Busy.Pagination.{int_at}
use fembin.Busy.Rowset.{Row, get_or_empty, parse_rowset_xml}
use fembin.Catalog.Detail.{item_node, entry_or, item_price}

pub record ItemDetail : Type 0 where
  pub name : Text
  pub print_name : Text
  pub price : Decimal

-- one line of the CSV file
pub record ExportRow : Type 0 where
  pub busy_code : ℤ
  pub name : Text
  pub print_name : Text
  pub price : Decimal

-- the file, if it exists, and the outside world
pub record Disk (W : Type 0) : Type 0 where
  pub output : Option (List ExportRow)
  pub net : W

abbrev pub on_busy : {W A : Type 0} → Exec Exn W A → Exec Exn (Disk W) A
on_busy m s = let (r, w) = m s.net in (r, record s { net = w })

unfoldable pub item_codes_of : List Row → Result Exn (List (ℤ × Text))
item_codes_of [] = ok []
item_codes_of (row ∷ rows) = and_then (int_at (codes "Code") row) (λ code.
    and_then (item_codes_of rows) (λ rest. ok ((code, get_or_empty (codes "Name") row) ∷ rest)))

abbrev pub done_codes : Option (List ExportRow) → List ℤ
done_codes none = []
done_codes (some rows) = map (λ r. r.busy_code) rows

unfoldable pub load_already_done : Bool → Option (List ExportRow) → List ℤ
load_already_done true output = []
load_already_done false output = done_codes output

unfoldable pub mem_ℤ : ℤ → List ℤ → Bool
mem_ℤ z [] = false
mem_ℤ z (x ∷ xs) = eqb_ℤ x z || mem_ℤ z xs

-- [(code, name) for code, name in items if code not in already_done]
unfoldable pub to_do : List ℤ → List (ℤ × Text) → List (ℤ × Text)
to_do seen [] = []
to_do seen (x ∷ xs) = let rest = to_do seen xs in if mem_ℤ x.0 seen then rest else x ∷ rest

-- the mode "a" adds to the file, "w" begins it anew
abbrev pub opened : List ℤ → Option (List ExportRow) → List ExportRow
opened [] output = []
opened (c ∷ cs) none = []
opened (c ∷ cs) (some rows) = rows

abbrev pub added : Option (List ExportRow) → ExportRow → List ExportRow
added none row = row ∷ []
added (some rows) row = rows ++ row ∷ []

pub record Counts : Type 0 where
  pub written : ℕ
  pub failed : ℕ

module _ (repr : XmlEntry → Text) where
  -- what the element says, `none` for an unexpected shape; the price may be no number
  unfoldable pub detail_of : XmlValue → Result Exn (Option ItemDetail)
  unfolding item_node
  detail_of parsed = elim (item_node parsed) [
    | none ↦ ok none
    | some node ↦ and_then (or_error invalid_operation (item_price repr node)) (λ price. ok (
        some (record {
          name = entry_or repr (get_entry (codes "Name") node);
          print_name = entry_or repr (get_entry (codes "PrintName") node);
          price = price;
        })))
  ]

  abbrev pub row_of : ℤ × Text → ItemDetail → ExportRow
  row_of (code, name) detail = record {
    busy_code = code;
    name = name;
    print_name = detail.print_name;
    price = detail.price;
  }

  -- the rows of a batch, with the counts
  unfoldable pub write_batch :
      {W : Type 0} → Counts → List ((ℤ × Text) × Option ItemDetail) → Exec Exn (Disk W) Counts
  write_batch counts [] = pure counts
  write_batch counts ((x, none) ∷ rest) =
      write_batch (record counts { failed = counts.failed + 1 }) rest
  write_batch counts ((x, some detail) ∷ rest) = do
    modify (λ s. record s { output = some (added s.output (row_of x detail)) })
    write_batch (record counts { written = counts.written + 1 }) rest

  module _ {W : Type 0} (client : BusyClient W) where
    unfoldable pub fetch_item_codes : Exec Exn W (List (ℤ × Text))
    fetch_item_codes = do
      xml ←
          run_query client (
            codes "SELECT Code, Name FROM Master1 WHERE MasterType = "
            ++ print_ℕ (master_type item))
      rows ← lift (parse_rowset_xml xml)
      lift (item_codes_of rows)

    -- the call, made again after an HTTPError as long as there are retries left; BUSY's own
    -- refusal is final
    unfoldable pub call_again : ℕ → ℤ → Result Exn Text → Exec Exn W (Option Text)
    call_again retries code (ok xml) w = (ok (some xml), w)
    call_again retries code (err (busy_error op response)) w = (ok none, w)
    call_again zero code (err http_error) w = (ok none, w)
    call_again (suc retries) code (err http_error) w =
        let (r, w') = get_master_xml client code w in call_again retries code r w'
    call_again retries code (err e) w = (err e, w)

    unfoldable pub fetch_detail : ℕ → ℤ → Exec Exn W (Option ItemDetail)
    unfolding call_again detail_of
    fetch_detail retries code w =
        let (r, w') = get_master_xml client code w in
        (do
          xml ← call_again retries code r
          elim xml [ none ↦ pure none | some t ↦ lift (and_then (parse_element_xml t) detail_of) ])
          w'

    unfoldable pub fetch_details :
        ℕ → List (ℤ × Text) → Exec Exn W (List ((ℤ × Text) × Option ItemDetail))
    fetch_details retries [] = pure []
    fetch_details retries (x ∷ xs) = do
      detail ← fetch_detail retries x.0
      rest ← fetch_details retries xs
      pure ((x, detail) ∷ rest)

    -- `todo[batch_start : batch_start + concurrency]` for each start; with as much fuel as there
    -- are codes none is left over
    unfoldable pub write_batches : ℕ → ℕ → ℕ → Counts → List (ℤ × Text) → Exec Exn (Disk W) Counts
    write_batches fuel retries concurrency counts [] = pure counts
    write_batches zero retries concurrency counts (x ∷ xs) = pure counts
    write_batches (suc fuel) retries concurrency counts (x ∷ xs) = do
      details ← on_busy (fetch_details retries (take concurrency (x ∷ xs)))
      counts' ← write_batch counts details
      write_batches fuel retries concurrency counts' (drop concurrency (x ∷ xs))

    -- the estimate of the batches divides by `concurrency`
    unfoldable pub export_todo : ℕ → ℕ → List ℤ → List (ℤ × Text) → Exec Exn (Disk W) Counts
    export_todo retries zero seen todo = raise zero_division
    export_todo retries (suc c) seen todo = do
      modify (λ s. record s { output = some (opened seen s.output) })
      write_batches (length todo) retries (suc c) (record { written = 0; failed = 0 }) todo

    unfoldable pub run : Bool → ℕ → ℕ → Exec Exn (Disk W) Counts
    run fresh retries concurrency = do
      seen ← gets (λ s. load_already_done fresh s.output)
      items ← on_busy fetch_item_codes
      export_todo retries concurrency seen (to_do seen items)
