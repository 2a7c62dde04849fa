-- ===== src/Scripts/Export/Batches.antt =====
-- scripts/export_busy_products_csv.py: what the batches of a run write.
use fembin.Base.{
  ℕ, zero, suc, ◌+◌, ◌≤◌, ◌≡◌, refl, ap, ◌∙◌, Text, Option, none, some, List, [], ◌∷◌, ◌++◌, arith,
  map, length, take, drop, take-append-drop, length-append, length-drop,
}
use mathlib.Core.Path.{subst}
use mathlib.Core.List.{append_assoc, append-nil}
use fembin.Base.Int.{ℤ}
use fembin.Exec.{Exec, Result, ok, err, continue, ◌>>=◌, >>=-ok}
use fembin.Errors.{Exn}
use fembin.Busy.Client.{BusyClient}
use fembin.Busy.Element.{XmlEntry}
use fembin.Scripts.Export.{
  ExportRow, ItemDetail, Disk, Counts, added, row_of, write_batch, fetch_detail, fetch_details,
  write_batches,
}
use fembin.Scripts.Export.Picked.{Picked, done, skip, keep, Picked-append, Picked-nothing}

-- What a part of the run did: its rows behind those of the file, and, if it returned, its counts.
pub record Wrote {W : Type 0} (rows : List ExportRow) (todo : List (ℤ × Text)) (counts : Counts)
    (out : Result Exn Counts × Disk W) : Type 0 where
  pub new : List ExportRow
  pub output : out.1.output ≡ some (rows ++ new)
  pub picked : Picked new todo
  pub counted :
      (d : Counts)
      → out.0 ≡ ok d
      → (d.written ≡ counts.written + length new)
        × (d.written + d.failed ≡ counts.written + counts.failed + length todo)

module _ {W : Type 0} (repr : XmlEntry → Text) where
  write_batch-Wrote :
      (rows : List ExportRow) (counts : Counts) (details : List ((ℤ × Text) × Option ItemDetail))
      (s : Disk W)
      → s.output ≡ some rows
      → Wrote rows (map (λ d. d.0) details) counts (write_batch repr counts details s)
  unfolding write_batch
  write_batch-Wrote rows counts [] s h = record {
    new = [];
    output = rw (append-nil rows) h;
    picked = done;
    counted = λ d e. ground arith;
  }
  write_batch-Wrote rows counts ((x, none) ∷ rest) s h =
      let w = write_batch-Wrote rows (record counts { failed = counts.failed + 1 }) rest s h in
      record {
        new = w.new;
        output = w.output;
        picked = skip x w.picked;
        counted = λ d e. let c = w.counted d e in omega arith;
      }
  write_batch-Wrote rows counts ((x, some detail) ∷ rest) s h =
      let row = row_of repr x detail in
      let w =
        write_batch-Wrote (rows ++ row ∷ []) (record counts { written = counts.written + 1 }) rest
          (record s { output = some (added s.output row) }) (rw h refl) in
      record {
        new = row ∷ w.new;
        output = w.output ∙ ap some (append_assoc rows (row ∷ []) w.new);
        picked = keep row x refl refl w.picked;
        counted = λ d e. let c = w.counted d e in omega arith;
      }

Wrote-append :
    {W : Type 0} {out : Result Exn Counts × Disk W} (rows : List ExportRow)
    (first rest : List (ℤ × Text)) (counts mid : Counts) (new : List ExportRow)
    → Picked new first
    → mid.written ≡ counts.written + length new
    → mid.written + mid.failed ≡ counts.written + counts.failed + length first
    → Wrote (rows ++ new) rest mid out
    → Wrote rows (first ++ rest) counts out
Wrote-append rows first rest counts mid new p written total w = record {
  new = new ++ w.new;
  output = w.output ∙ ap some (append_assoc rows new w.new);
  picked = Picked-append p w.picked;
  counted = λ d e.
      let c = w.counted d e in omega (arith, length-append new w.new, length-append first rest);
}

-- nothing was written by a run that raised
Wrote-err :
    {W : Type 0} (rows : List ExportRow) (todo : List (ℤ × Text)) (counts : Counts) (e : Exn)
    (t : Disk W)
    → t.output ≡ some rows
    → Wrote rows todo counts (err e, t)
Wrote-err rows todo counts e t h = record {
  new = [];
  output = rw (append-nil rows) h;
  picked = Picked-nothing todo;
  counted = λ d k. absurd (ground arith);
}

-- a part and what follows it, on the part's own outcome
Wrote-then :
    {W : Type 0} (rows : List ExportRow) (first rest : List (ℤ × Text)) (counts : Counts)
    (out : Result Exn Counts × Disk W) (k : Counts → Exec Exn (Disk W) Counts)
    → Wrote rows first counts out
    → ((new : List ExportRow) (d : Counts) (t : Disk W)
        → t.output ≡ some (rows ++ new)
        → Wrote (rows ++ new) rest d (k d t))
    → Wrote rows (first ++ rest) counts (continue k out.0 out.1)
Wrote-then rows first rest counts (err e, t) k w later = record {
  new = w.new ++ [];
  output = rw (append-nil w.new) w.output;
  picked = Picked-append w.picked (Picked-nothing rest);
  counted = λ d h. absurd (ground arith);
}
Wrote-then rows first rest counts (ok d, t) k w later =
    let c = w.counted d refl in
    Wrote-append rows first rest counts d w.new w.picked c.0 c.1 (later w.new d t w.output)

module _ {W : Type 0} (repr : XmlEntry → Text) where
  fetched_then :
      (rows : List ExportRow) (batch later : List (ℤ × Text)) (counts : Counts) (s : Disk W)
      (out : Result Exn (List ((ℤ × Text) × Option ItemDetail)) × W)
      (k : Counts → Exec Exn (Disk W) Counts)
      → s.output ≡ some rows
      → ((details : List ((ℤ × Text) × Option ItemDetail))
          → out.0 ≡ ok details
          → map (λ (d : (ℤ × Text) × Option ItemDetail). d.0) details ≡ batch)
      → ((new : List ExportRow) (d : Counts) (t : Disk W)
          → t.output ≡ some (rows ++ new)
          → Wrote (rows ++ new) later d (k d t))
      → Wrote rows (batch ++ later) counts (
          continue
            (λ details. write_batch repr counts details >>= k)
            out.0
            (record s { net = out.1 }))
  fetched_then rows batch later counts s (err e, w) k h same rest =
      Wrote-err rows (batch ++ later) counts e (record s { net = w }) h
  fetched_then rows batch later counts s (ok details, w) k h same rest =
      Wrote-then rows batch later counts (write_batch repr counts details (record s { net = w })) k
        (rw (← same details refl)
          (write_batch-Wrote repr rows counts details (record s { net = w }) h))
        rest

module _ {W : Type 0} (repr : XmlEntry → Text) (client : BusyClient W) where
  -- the details come back in the order of the items
  fetch_details-map :
      (retries : ℕ) (xs : List (ℤ × Text)) (w w' : W)
      (details : List ((ℤ × Text) × Option ItemDetail))
      → fetch_details repr client retries xs w ≡ (ok details, w')
      → map (λ (d : (ℤ × Text) × Option ItemDetail). d.0) details ≡ xs
  unfolding fetch_details
  fetch_details-map retries [] w w' details h = ground arith
  fetch_details-map retries (x ∷ xs) w w' details h =
      let (detail, e, h') = >>=-ok (fetch_detail repr client retries x.0) _ w h in
      let (rest, e', h'') = >>=-ok (fetch_details repr client retries xs) _ _ h' in
      let same =
        fetch_details-map retries xs (fetch_detail repr client retries x.0 w).1
          (fetch_details repr client retries xs (fetch_detail repr client retries x.0 w).1).1 rest
          (ground arith) in
      ground arith

  pub write_batches-Wrote :
      (fuel retries c : ℕ) (rows : List ExportRow) (counts : Counts) (todo : List (ℤ × Text))
      (s : Disk W)
      → length todo ≤ fuel
      → s.output ≡ some rows
      → Wrote rows todo counts (write_batches repr client fuel retries (suc c) counts todo s)
  unfolding write_batches
  write_batches-Wrote fuel retries c rows counts [] s f h = record {
    new = [];
    output = rw (append-nil rows) h;
    picked = done;
    counted = λ d e. ground arith;
  }
  write_batches-Wrote zero retries c rows counts (x ∷ xs) s f h = absurd (omega arith)
  write_batches-Wrote (suc fuel) retries c rows counts (x ∷ xs) s f h =
      let batch = take (suc c) (x ∷ xs) in
      let later = drop (suc c) (x ∷ xs) in
      let whole = take-append-drop (suc c) (x ∷ xs) in
      subst
        (λ (l : List (ℤ × Text)).
          Wrote rows l counts
            (write_batches repr client (suc fuel) retries (suc c) counts (x ∷ xs) s))
        whole
        (fetched_then repr rows batch later counts s (fetch_details repr client retries batch s.net)
          _ h
          (λ details e.
            fetch_details-map retries batch s.net (fetch_details repr client retries batch s.net).1
              details (ground arith))
          (λ new d t g.
            write_batches-Wrote fuel retries c (rows ++ new) d later t
              (omega (arith, length-drop (suc c) (x ∷ xs))) g))
