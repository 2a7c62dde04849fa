-- ===== src/Busy/Pagination.antt =====
-- app/busy/pagination.py: `fetch_all_pages`. The `while True` runs on fuel; `none` as the answer
-- says that the fuel ran out.
pub mod Order
pub mod Exact
use fembin.Base.{
  ℕ, zero, suc, Text, codes, text_eq, Option, none, some, List, [], ◌∷◌, ◌++◌, Bool, true, false,
  not, ltb, ◌||◌, length,
}
use fembin.Base.Int.{ℤ}
use fembin.Base.Dict.{lookup}
use fembin.Exec.{Exec, Result, ok, pure, lift, raise_if, and_then, ◌>>=◌, ◌>>◌}
use fembin.Errors.{Exn, key_error, value_error, or_error}
use fembin.Strings.{parse_int, print_ℕ, print_ℤ}
use fembin.Busy.Client.{BusyClient, run_query}
use fembin.Busy.Rowset.{Row, parse_rowset_xml}

-- row[key]
unfoldable pub text_at : Text → Row → Result Exn Text
unfolding lookup
text_at key row = or_error key_error (lookup key row)

-- int(row[key])
unfoldable pub int_at : Text → Row → Result Exn ℤ
unfolding text_at
int_at key row = and_then (text_at key row) (λ t. or_error value_error (parse_int t))

-- where the next page starts: after a stamp, or after a stamp and a code
pub data Cursor : Type 0 where
  after_stamp : ℤ → Cursor
  after_row : ℤ → ℤ → Cursor

unfoldable pub predicate : Cursor → Text
predicate (after_stamp s) = codes "Stamp > " ++ print_ℤ s
predicate (after_row s c) =
    codes "(Stamp > "
    ++ (print_ℤ s
        ++ (codes " OR (Stamp = "
            ++ (print_ℤ s ++ (codes " AND Code > " ++ (print_ℤ c ++ codes "))")))))

-- ", ".join(columns)
unfoldable pub join_columns : List Text → Text
join_columns [] = []
join_columns (c ∷ []) = c
join_columns (c ∷ d ∷ cs) = c ++ (codes ", " ++ join_columns (d ∷ cs))

unfoldable pub page_sql : List Text → Text → ℕ → Cursor → Text
unfolding predicate join_columns
page_sql columns from_and_where page_size cursor =
    codes "SELECT TOP "
    ++ (print_ℕ page_size
        ++ (codes " "
            ++ (join_columns columns
                ++ (codes " FROM "
                    ++ (from_and_where
                        ++ (codes " AND "
                            ++ (predicate cursor ++ codes " ORDER BY Stamp, Code")))))))

-- the cursor behind a row
unfoldable pub row_cursor : Row → Result Exn Cursor
unfolding int_at
row_cursor row =
    and_then (int_at (codes "Stamp") row)
      (λ stamp. and_then (int_at (codes "Code") row) (λ code. ok (after_row stamp code)))

-- page[-1]
abbrev pub last_row : Row → List Row → Row
last_row row [] = row
last_row row (next ∷ rows) = last_row next rows

abbrev pub prepend : List Row → Option (List Row) → Option (List Row)
prepend page none = none
prepend page (some rows) = some (page ++ rows)

abbrev pub has_column : Text → List Text → Bool
has_column c [] = false
has_column c (d ∷ ds) = text_eq d c || has_column c ds

module _ {W : Type 0} (client : BusyClient W) (columns : List Text) (from_and_where : Text)
    (page_size : ℕ) where
  unfoldable pub read_page : Cursor → Exec Exn W (List Row)
  read_page cursor = do
    xml ← run_query client (page_sql columns from_and_where page_size cursor)
    lift (parse_rowset_xml xml)

  unfoldable pub fetch_pages : ℕ → Cursor → Exec Exn W (Option (List Row))
  fetch_pages zero cursor = pure none
  fetch_pages (suc fuel) cursor = do
    page ← read_page cursor
    elim page [
      | [] ↦ pure (some [])
      | row ∷ rows ↦ do
        next ← lift (row_cursor (last_row row rows))
        elim (ltb (length (row ∷ rows)) page_size) [
          | true ↦ pure (some (row ∷ rows))
          | false ↦ do rest ← fetch_pages fuel next; pure (prepend (row ∷ rows) rest)
        ]
    ]

  unfoldable pub fetch_all_pages : ℕ → ℤ → Exec Exn W (Option (List Row))
  fetch_all_pages fuel since = do
    raise_if (not (has_column (codes "Stamp") columns) || not (has_column (codes "Code") columns))
        value_error
    raise_if (ltb page_size 1) value_error
    fetch_pages fuel (after_stamp since)
