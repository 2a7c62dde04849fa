-- ===== src/Scripts/Export/Resumes.antt =====
-- scripts/export_busy_products_csv.py: what a run adds to the file of an earlier one.
use fembin.Base.{
  ℕ, zero, suc, ◌+◌, ◌≡◌, refl, sym, Text, Option, some, List, [], ◌∷◌, ◌++◌, false, arith, All,
  length,
}
use mathlib.Core.Path.{subst}
use mathlib.Core.List.{append-nil}
use fembin.Base.Int.{ℤ}
use fembin.Exec.{Result, ok, err, continue}
use fembin.Errors.{Exn, zero_division}
use fembin.Busy.Client.{BusyClient}
use fembin.Busy.Element.{XmlEntry}
use fembin.Scripts.Export.{
  ExportRow, Disk, Counts, done_codes, load_already_done, mem_ℤ, to_do, opened, fetch_item_codes,
  export_todo, run,
}
use fembin.Scripts.Export.Picked.{Picked, Picked-All, to_do-All}
use fembin.Scripts.Export.Batches.{Wrote, write_batches-Wrote}

opened_lem : (rows : List ExportRow) → opened (done_codes (some rows)) (some rows) ≡ rows
opened_lem [] = refl
opened_lem (row ∷ rows) = refl

module _ {W : Type 0} (repr : XmlEntry → Text) (client : BusyClient W) (retries concurrency : ℕ)
    (rows : List ExportRow) (s : Disk W) (there : s.output ≡ some rows) where
  abbrev left_over : List (ℤ × Text) → List (ℤ × Text)
  left_over items = to_do (done_codes (some rows)) items

  -- what a run leaves behind the rows of the file
  pub record Resumed (out : Result Exn Counts × Disk W) : Type 0 where
    pub new : List ExportRow
    pub output : out.1.output ≡ some (rows ++ new)
    pub unseen : All (λ r. mem_ℤ r.busy_code (done_codes (some rows)) ≡ false) new
    pub counted :
        (d : Counts)
        → out.0 ≡ ok d
        → (items : List (ℤ × Text)) × ((fetch_item_codes repr client s.net).0 ≡ ok items)
          × Picked new (left_over items)
          × (d.written ≡ length new)
          × (d.written + d.failed ≡ length (left_over items))

  Resumed-err : (e : Exn) (t : Disk W) → t.output ≡ some rows → Resumed (err e, t)
  Resumed-err e t h = record {
    new = [];
    output = rw (append-nil rows) h;
    unseen = tt;
    counted = λ d k. absurd (ground arith);
  }

  Wrote-Resumed :
      (items : List (ℤ × Text)) (out : Result Exn Counts × Disk W)
      → (fetch_item_codes repr client s.net).0 ≡ ok items
      → Wrote rows (left_over items) (record { written = 0; failed = 0 }) out
      → Resumed out
  Wrote-Resumed items out e w = record {
    new = w.new;
    output = w.output;
    unseen =
        Picked-All (done_codes (some rows)) w.picked (to_do-All (done_codes (some rows)) items);
    counted = λ d k. let c = w.counted d k in (items, e, w.picked, omega arith, omega arith);
  }

  export_todo-Resumed :
      (c : ℕ) (items : List (ℤ × Text)) (t : Disk W)
      → (fetch_item_codes repr client s.net).0 ≡ ok items
      → t.output ≡ some rows
      → Resumed (export_todo repr client retries c (done_codes (some rows)) (left_over items) t)
  unfolding export_todo
  export_todo-Resumed zero items t e h = Resumed-err zero_division t h
  export_todo-Resumed (suc c) items t e h = Wrote-Resumed items _ e (
      write_batches-Wrote repr client (length (left_over items)) retries c rows
        (record { written = 0; failed = 0 }) (left_over items)
        (record t { output = some (opened (done_codes (some rows)) t.output) }) (omega arith)
        (rw (h, opened_lem rows) refl))

  fetched-Resumed :
      (out : Result Exn (List (ℤ × Text)) × W)
      → out.0 ≡ (fetch_item_codes repr client s.net).0
      → Resumed (
          continue
            (λ items.
              export_todo repr client retries concurrency
                (done_codes (some rows))
                (left_over items))
            out.0
            (record s { net = out.1 }))
  fetched-Resumed (err e, w) same = Resumed-err e (record s { net = w }) there
  fetched-Resumed (ok items, w) same =
      export_todo-Resumed concurrency items (record s { net = w }) (sym same) there

  -- A run over the file of an earlier one keeps that file's rows as they are, whether it ends or
  -- raises, and adds only rows of items whose codes were not in it. If it ends, the rows added are
  -- items of BUSY's list in its order, and every item that was left over is either among them or
  -- counted as failed.
  pub run_resumes : Resumed (run repr client false retries concurrency s)
  unfolding run load_already_done
  run_resumes =
      subst
        (λ (o : Option (List ExportRow)). Resumed (
          continue
            (λ items.
              export_todo repr client retries concurrency (done_codes o)
                (to_do (done_codes o) items))
            (fetch_item_codes repr client s.net).0
            (record s { net = (fetch_item_codes repr client s.net).1 })))
        (sym there) (fetched-Resumed (fetch_item_codes repr client s.net) refl)
