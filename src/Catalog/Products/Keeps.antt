-- ===== src/Catalog/Products/Keeps.antt =====
-- `sync_products` keeps every product and its local columns, whatever its outcome.
use fembin.Base.{
  ℕ, zero, suc, ◌≡◌, Text, codes, Option, none, some, List, [], ◌∷◌, Bool, true, false, take, drop,
  length, if◌then◌else◌,
}
use fembin.Base.Int.{ℤ}
use fembin.Exec.{Exec, gets, modify, pure, ◌>>=◌, >>=-rel}
use fembin.Errors.{Exn}
use fembin.Db.{Db, Product, State, on_net}
use fembin.Busy.Client.{BusyClient}
use fembin.Busy.Constants.{item}
use fembin.Busy.Element.{XmlEntry}
use fembin.Busy.Pagination.{fetch_all_pages}
use fembin.Busy.Rowset.{Row}
use fembin.Catalog.Centers.{master_where}
use fembin.Catalog.Detail.{uncategorised}
use fembin.Catalog.Stamps.{
  on_now, commit_session, upsert_category, set_last_stamp, set_last_full_at,
}
use fembin.Catalog.Products.{
  plan, product_columns, scan_rows, fetch_batch, store_details, Tally, store_batches, batched,
  store_products, store_fetched, Scan, store_active, finish, sync_products,
}
use fembin.Catalog.Products.Local.{
  Kept, KeptDb, Kept-refl, Kept-trans, KeptDb-upsert_category, scan_rows-KeptDb,
  store_details-KeptDb,
}

module _ {W : Type 0} where
  -- the products of `base` are in the session's state and in the committed one
  abbrev pub Holds : List Product → State W → Type 0
  Holds base s = Kept base s.session.now.products × Kept base s.session.saved.products

  abbrev pub Safe : State W → State W → Type 0
  Safe s t = (base : List Product) → Holds base s → Holds base t

  pub Safe-trans : (s t u : State W) → Safe s t → Safe t u → Safe s u
  Safe-trans s t u f g base h = g base (f base h)

  pub Safe-on_now :
      {A : Type 0} (m : Exec Exn Db A)
      → ((db : Db) → KeptDb db (m db).1)
      → (s : State W) → Safe s (on_now m s).1
  Safe-on_now m keeps s base h = (
    Kept-trans base s.session.now.products (m s.session.now).1.products h.0 (keeps s.session.now),
    h.1,
  )

  pub Safe-commit : (s : State W) → Safe s (commit_session s).1
  Safe-commit s base h = (h.0, h.0)

set_last_stamp-KeptDb :
    (stamp : ℤ) (db : Db) → KeptDb db (set_last_stamp (codes "products") stamp db)
unfolding set_last_stamp
set_last_stamp-KeptDb stamp db = Kept-refl db.products

set_full-KeptDb :
    (full : Bool) (now : ℕ) (db : Db)
    → KeptDb db (if full then set_last_full_at (codes "products") now db else db)
unfolding set_last_full_at
set_full-KeptDb true now db = Kept-refl db.products
set_full-KeptDb false now db = Kept-refl db.products

module _ {W : Type 0} (repr : XmlEntry → Text) (client : BusyClient W) where
  store_batches-Safe :
      (fuel concurrency : ℕ) (tally : Tally) (codes : List ℤ) (s : State W)
      → Safe s (store_batches repr client fuel concurrency tally codes s).1
  unfolding store_batches
  store_batches-Safe fuel concurrency tally [] s = λ base h. h
  store_batches-Safe zero concurrency tally (code ∷ more) s = λ base h. h
  store_batches-Safe (suc fuel) concurrency tally (code ∷ more) s =
      >>=-rel Safe Safe-trans (on_net (fetch_batch repr client (take concurrency (code ∷ more)))) _
        (λ t base h. h)
        (λ fetched.
          >>=-rel Safe Safe-trans (on_now (store_details tally fetched)) _
            (Safe-on_now (store_details tally fetched) (store_details-KeptDb fetched tally))
            (λ tally' t.
              store_batches-Safe fuel concurrency tally' (drop concurrency (code ∷ more)) t))
        s

  batched-Safe :
      (concurrency : ℕ) (tally : Tally) (codes : List ℤ) (s : State W)
      → Safe s (batched repr client concurrency tally codes s).1
  unfolding batched
  batched-Safe zero tally codes s = λ base h. h
  batched-Safe (suc c) tally codes s = store_batches-Safe (length codes) (suc c) tally codes s

  finish-Safe :
      (is_full_run : Bool) (now changed : ℕ) (scan : Scan) (tally : Tally) (s : State W)
      → Safe s (finish repr client is_full_run now changed scan tally s).1
  unfolding finish
  finish-Safe is_full_run now changed scan tally s base h =
      let stamped : Db = set_last_stamp (codes "products") scan.max_stamp s.session.now in
      let kept =
        Kept-trans base s.session.now.products stamped.products h.0
          (set_last_stamp-KeptDb scan.max_stamp s.session.now) in
      let all = Kept-trans base stamped.products _ kept (set_full-KeptDb is_full_run now stamped) in
      (all, all)

  store_active-Safe :
      (is_full_run : Bool) (now concurrency changed : ℕ) (scan : Scan) (s : State W)
      → Safe s (store_active repr client is_full_run now concurrency changed scan s).1
  unfolding store_active
  store_active-Safe is_full_run now concurrency changed scan =
      let tally : Tally = record { stored = scan.stored; failed = 0 } in
      >>=-rel Safe Safe-trans (batched repr client concurrency tally scan.active)
        (finish repr client is_full_run now changed scan)
        (batched-Safe concurrency tally scan.active)
        (λ tally' t. finish-Safe is_full_run now changed scan tally' t)

  store_products-Safe :
      (since : ℤ) (is_full_run : Bool) (now concurrency : ℕ) (rows : List Row) (s : State W)
      → Safe s (store_products repr client since is_full_run now concurrency rows s).1
  unfolding store_products
  store_products-Safe since is_full_run now concurrency rows =
      let scan : Scan = record { max_stamp = since; stored = 0; active = [] } in
      let rest = store_active repr client is_full_run now concurrency (length rows) in
      >>=-rel Safe Safe-trans (on_now (modify (upsert_category uncategorised)))
        (λ u. on_now (scan_rows scan rows) >>= rest)
        (Safe-on_now (modify (upsert_category uncategorised))
          (KeptDb-upsert_category uncategorised))
        (λ u.
          >>=-rel Safe Safe-trans (on_now (scan_rows scan rows)) rest
            (Safe-on_now (scan_rows scan rows) (scan_rows-KeptDb rows scan))
            (store_active-Safe is_full_run now concurrency (length rows)))

  store_fetched-Safe :
      (since : ℤ) (is_full_run : Bool) (now concurrency : ℕ) (fetched : Option (List Row))
      (s : State W)
      → Safe s (store_fetched repr client since is_full_run now concurrency fetched s).1
  unfolding store_fetched
  store_fetched-Safe since is_full_run now concurrency none s = λ base h. h
  store_fetched-Safe since is_full_run now concurrency (some rows) s =
      >>=-rel Safe Safe-trans (store_products repr client since is_full_run now concurrency rows)
        (λ r. pure (some r)) (store_products-Safe since is_full_run now concurrency rows)
        (λ r t base h. h) s

  sync_products-Safe :
      (fuel : ℕ) (full : Bool) (strategy : Text) (now interval page_size concurrency : ℕ)
      (s : State W)
      → Safe s (sync_products repr client fuel full strategy now interval page_size concurrency s).1
  unfolding sync_products
  sync_products-Safe fuel full strategy now interval page_size concurrency =
      let fetch = λ (p : ℤ × Bool).
        on_net (fetch_all_pages client product_columns (master_where item) page_size fuel p.0) in
      >>=-rel Safe Safe-trans (gets (λ t. plan full strategy now interval t.session.now))
        (λ p. fetch p >>= store_fetched repr client p.0 p.1 now concurrency) (λ t base h. h)
        (λ p.
          >>=-rel Safe Safe-trans (fetch p) (store_fetched repr client p.0 p.1 now concurrency)
            (λ t base h. h) (store_fetched-Safe p.0 p.1 now concurrency))

  -- If the session starts at the committed state, then whatever a sync of the products ends in, no
  -- product is gone from the session's state or from the committed one, and the columns of the
  -- store and the barcode are as they were.
  pub sync_products_keeps :
      (fuel : ℕ) (full : Bool) (strategy : Text) (now interval page_size concurrency : ℕ)
      (s : State W)
      → s.session.saved ≡ s.session.now
      → let t =
          (sync_products repr client fuel full strategy now interval page_size concurrency s).1 in
        Kept s.session.now.products t.session.now.products
        × Kept s.session.now.products t.session.saved.products
  sync_products_keeps fuel full strategy now interval page_size concurrency s e =
      sync_products-Safe fuel full strategy now interval page_size concurrency s
        s.session.now.products
        (Kept-refl s.session.now.products, rw e (Kept-refl s.session.now.products))
