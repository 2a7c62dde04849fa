-- ===== src/Catalog/Products/Atomic.antt =====
-- `sync_products` as one transaction.
use fembin.Base.{
  ℕ, zero, suc, ◌≡◌, refl, ◌∙◌, Text, codes, Option, none, some, List, [], ◌∷◌, Bool, true, false,
  take, drop, length,
}
use fembin.Base.Int.{ℤ}
use fembin.Exec.{Exec, Result, ok, err, pure, continue, gets, modify, ◌>>=◌, >>=-rel}
use fembin.Errors.{Exn}
use fembin.Db.{State, on_net}
use fembin.Busy.Client.{BusyClient}
use fembin.Busy.Constants.{item}
use fembin.Busy.Element.{XmlEntry}
use fembin.Busy.Pagination.{fetch_all_pages}
use fembin.Busy.Rowset.{Row}
use fembin.Catalog.Centers.{master_where}
use fembin.Catalog.Detail.{uncategorised}
use fembin.Catalog.Stamps.{SyncResult, on_now, upsert_category}
use fembin.Catalog.Transaction.{Outcome, >>=-Outcome}
use fembin.Catalog.Products.{
  plan, product_columns, scan_rows, fetch_batch, store_details, Tally, store_batches, batched,
  store_products, store_fetched, Scan, store_active, finish, sync_products,
}

abbrev pub is_some : {A : Type 0} → Option A → Bool
is_some none = false
is_some (some a) = true

abbrev always : SyncResult → Bool
always r = true

some-from :
    {W : Type 0} (s : State W) (out : Result Exn SyncResult × State W)
    → Outcome always s out
    → Outcome is_some s (continue (λ r. pure (some r)) out.0 out.1)
some-from s (ok r, t) o = o
some-from s (err e, t) o = o

some-Outcome :
    {W : Type 0} (m : Exec Exn (State W) SyncResult) (s : State W)
    → Outcome always s (m s)
    → Outcome is_some s ((m >>= λ r. pure (some r)) s)
some-Outcome m s o = some-from s (m s) o

module _ {W : Type 0} (repr : XmlEntry → Text) (client : BusyClient W) where
  abbrev SameSaved : State W → State W → Type 0
  SameSaved s t = t.session.saved ≡ s.session.saved

  SameSaved-trans : (s t u : State W) → SameSaved s t → SameSaved t u → SameSaved s u
  SameSaved-trans s t u f g = g ∙ f

  store_batches-SameSaved :
      (fuel concurrency : ℕ) (tally : Tally) (codes : List ℤ) (s : State W)
      → SameSaved s (store_batches repr client fuel concurrency tally codes s).1
  unfolding store_batches
  store_batches-SameSaved fuel concurrency tally [] s = refl
  store_batches-SameSaved zero concurrency tally (code ∷ more) s = refl
  store_batches-SameSaved (suc fuel) concurrency tally (code ∷ more) s =
      >>=-rel SameSaved SameSaved-trans
        (on_net (fetch_batch repr client (take concurrency (code ∷ more)))) _ (λ t. refl)
        (λ fetched.
          >>=-rel SameSaved SameSaved-trans (on_now (store_details tally fetched)) _ (λ t. refl)
            (λ tally' t.
              store_batches-SameSaved fuel concurrency tally' (drop concurrency (code ∷ more)) t))
        s

  batched-SameSaved :
      (concurrency : ℕ) (tally : Tally) (codes : List ℤ) (s : State W)
      → SameSaved s (batched repr client concurrency tally codes s).1
  unfolding batched
  batched-SameSaved zero tally codes s = refl
  batched-SameSaved (suc c) tally codes s =
      store_batches-SameSaved (length codes) (suc c) tally codes s

  store_active-Outcome :
      (is_full_run : Bool) (now concurrency changed : ℕ) (scan : Scan) (s : State W)
      → Outcome always s (store_active repr client is_full_run now concurrency changed scan s)
  unfolding store_active finish
  store_active-Outcome is_full_run now concurrency changed scan =
      let tally : Tally = record { stored = scan.stored; failed = 0 } in
      >>=-Outcome always (batched repr client concurrency tally scan.active)
        (finish repr client is_full_run now changed scan)
        (batched-SameSaved concurrency tally scan.active) (λ tally' t. refl)

  store_products-Outcome :
      (since : ℤ) (is_full_run : Bool) (now concurrency : ℕ) (rows : List Row) (s : State W)
      → Outcome always s (store_products repr client since is_full_run now concurrency rows s)
  unfolding store_products
  store_products-Outcome since is_full_run now concurrency rows s =
      let rest = store_active repr client is_full_run now concurrency (length rows) in
      let scanned = scan_rows (record { max_stamp = since; stored = 0; active = [] }) rows in
      >>=-Outcome always (on_now (modify (upsert_category uncategorised)))
        (λ u. on_now scanned >>= rest) (λ t. refl)
        (λ u.
          >>=-Outcome always (on_now scanned) rest (λ t. refl)
            (store_active-Outcome is_full_run now concurrency (length rows)))
        s

  fetched-Outcome :
      (since : ℤ) (is_full_run : Bool) (now concurrency : ℕ) (fetched : Option (List Row))
      (s : State W)
      → Outcome is_some s (store_fetched repr client since is_full_run now concurrency fetched s)
  unfolding store_fetched
  fetched-Outcome since is_full_run now concurrency none s = refl
  fetched-Outcome since is_full_run now concurrency (some rows) s =
      some-Outcome (store_products repr client since is_full_run now concurrency rows) s
        (store_products-Outcome since is_full_run now concurrency rows s)

  -- A sync of the products that ends in an error has committed nothing, and so has one that ran
  -- out of fuel; one that returns a result has committed all that it wrote.
  pub sync_products_atomic :
      (fuel : ℕ) (full : Bool) (strategy : Text) (now interval page_size concurrency : ℕ)
      (s : State W)
      → Outcome is_some s
          (sync_products repr client fuel full strategy now interval page_size concurrency s)
  unfolding sync_products
  sync_products_atomic fuel full strategy now interval page_size concurrency s =
      >>=-Outcome is_some (gets (λ t. plan full strategy now interval t.session.now)) _ (λ t. refl)
        (λ plan'.
          >>=-Outcome is_some
            (on_net
              (fetch_all_pages client product_columns (master_where item) page_size fuel plan'.0))
            _ (λ t. refl) (λ fetched. fetched-Outcome plan'.0 plan'.1 now concurrency fetched))
        s
