-- ===== src/Tests/Pages.antt =====
-- Three rows, two of them with one stamp, on pages of one row.
use fembin.Base.{
  ℕ, ◌≡◌, ◌<◌, refl, sym, arith, length, Text, codes, text_eq, Option, none, some, List, [], ◌∷◌,
  true, inl, inr, if◌then◌else◌,
}
use mathlib.Core.Path.{subst}
use fembin.Base.Int.{pos}
use fembin.Base.Dict.{lookup}
use fembin.Exec.{ok}
use fembin.Strings.{parse_int, print_ℕ, print_ℤ}
use fembin.Busy.Client.{BusyClient, run_query, call, answer}
use fembin.Busy.Rowset.{parse_rowset_xml}
use fembin.Busy.Pagination.{
  Cursor, predicate, join_columns, has_column, after_stamp, after_row, page_sql, row_cursor,
  fetch_all_pages,
}
use fembin.Busy.Pagination.Order.{Entry, IsOrdered, is_after, rows_after}
use fembin.Busy.Pagination.Exact.{Page, rows_of, Asked, IsKeyed, fetch_all_pages_exact}

abbrev entry : ℕ → ℕ → Text → Text → Entry
entry stamp code s c = record {
  stamp = pos stamp;
  code = pos code;
  row = (codes "Stamp", s) ∷ (codes "Code", c) ∷ [];
}

abbrev two_rows : List Entry
two_rows = entry 3 7 (codes "3") (codes "7") ∷ entry 3 8 (codes "3") (codes "8") ∷ []

abbrev columns : List Text
columns = codes "Stamp" ∷ codes "Code" ∷ []

abbrev from_and_where : Text
from_and_where = codes "Master1 WHERE MasterType = 6"

abbrev sql : Cursor → Text
sql = page_sql columns from_and_where 1

abbrev body : Option Text → Text
body none = []
body (some q) =
    if text_eq q (sql (after_stamp (pos 0)))
    then codes "<rs:data><z:row Stamp='3' Code='7'/></rs:data>"
    else if text_eq q (sql (after_row (pos 3) (pos 7)))
    then codes "<rs:data><z:row Stamp='3' Code='8'/></rs:data>"
    else codes "<rs:data></rs:data>"

abbrev server : BusyClient Unit
server = record {
  username = codes "u";
  password = codes "p";
  http_get = λ headers w. (
    ok (record {
      status_code = 200;
      header = λ name. if text_eq name (codes "Result") then some (codes "T") else none;
      text = body (lookup (codes "Qry") headers);
    }),
    w,
  );
}

two_rows-IsKeyed : IsKeyed two_rows
unfolding row_cursor codes text_eq parse_int
two_rows-IsKeyed = (refl, (refl, tt))

abbrev Answers : Cursor → Unit {0} → Type 0
Answers c w = Page server columns from_and_where 1 two_rows c w

first_page : (w : Unit) → Answers (after_stamp (pos 0)) w
unfolding run_query call answer lookup text_eq codes print_ℕ print_ℤ page_sql predicate join_columns
    parse_rowset_xml rows_after is_after
first_page w = record {
  next = w;
  xml = body (some (sql (after_stamp (pos 0))));
  answered = refl;
  parsed = refl;
}

second_page : (w : Unit) → Answers (after_row (pos 3) (pos 7)) w
unfolding run_query call answer lookup text_eq codes print_ℕ print_ℤ page_sql predicate join_columns
    parse_rowset_xml rows_after is_after
second_page w = record {
  next = w;
  xml = body (some (sql (after_row (pos 3) (pos 7))));
  answered = refl;
  parsed = refl;
}

third_page : (w : Unit) → Answers (after_row (pos 3) (pos 8)) w
unfolding run_query call answer lookup text_eq codes print_ℕ print_ℤ page_sql predicate join_columns
    parse_rowset_xml rows_after is_after
third_page w = record {
  next = w;
  xml = body (some (sql (after_row (pos 3) (pos 8))));
  answered = refl;
  parsed = refl;
}

served : (c : Cursor) → Asked (pos 0) two_rows c → (w : Unit) → Answers c w
served c (inl e) w = subst (λ (d : Cursor). Answers d w) (sym e) (first_page w)
served c (inr (inl e)) w = subst (λ (d : Cursor). Answers d w) (sym e) (second_page w)
served c (inr (inr (inl e))) w = subst (λ (d : Cursor). Answers d w) (sym e) (third_page w)
served c (inr (inr (inr x))) w = elim x [ ]

two_rows-IsOrdered : IsOrdered two_rows
unfolding is_after
two_rows-IsOrdered = ((refl, tt), (tt, tt))

two_behind : length (rows_after (after_stamp (pos 0)) two_rows) < 3
unfolding rows_after is_after
two_behind = omega arith

stamp_column : has_column (codes "Stamp") columns ≡ true
unfolding text_eq codes
stamp_column = refl

code_column : has_column (codes "Code") columns ≡ true
unfolding text_eq codes
code_column = refl

fetch_all_pages_exact_example :
    (fetch_all_pages server columns from_and_where 1 3 (pos 0) tt).0
    ≡ ok (some (rows_of (rows_after (after_stamp (pos 0)) two_rows)))
fetch_all_pages_exact_example =
    fetch_all_pages_exact server columns from_and_where 0 two_rows (pos 0) served two_rows-IsOrdered
      two_rows-IsKeyed 3 tt stamp_column code_column two_behind
