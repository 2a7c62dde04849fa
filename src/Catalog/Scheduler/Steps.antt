-- ===== src/Catalog/Scheduler/Steps.antt =====
-- What a run of app/domain/catalog/scheduler.py has committed when it raises.
use fembin.Base.{true, ℕ, ◌≡◌, ◌⊎◌, inl, inr, refl, Text, Option, none, some, Bool, arith}
use fembin.Exec.{Exec, Result, ok, err, ◌>>=◌, continue, Result-cases}
use fembin.Errors.{Exn}
use fembin.Db.{State, rollback}
use fembin.Busy.Client.{BusyClient}
use fembin.Busy.Element.{XmlEntry}
use fembin.Catalog.Stamps.{SyncResult}
use fembin.Catalog.Centers.Atomic.{sync_material_centers_atomic, sync_salesmen_atomic}
use fembin.Catalog.Transaction.{Outcome}
use fembin.Catalog.Products.Atomic.{is_some, sync_products_atomic}
use fembin.Catalog.Scheduler.{
  Settings, Clock, default_page_size, in_session, or_logged, if_some, centers_step, salesmen_step,
  series_step, products_step, woo_step, push_run, products_run, run_catalog_sync,
}
use fembin.Woo.Client.{WooClient}
use fembin.Woo.Push.{push_products_to_woocommerce}
use fembin.Woo.Push.Atomic.{push_products_to_woocommerce_atomic}

module _ {W A : Type 0} where
  -- a step that raises in its session leaves what was committed before
  in_session-err :
      (committed : A → Bool) (m : Exec Exn (State W) A) (s : State W) {e : Exn}
      → ((u : State W) → Outcome committed u (m u))
      → (in_session m s).0 ≡ err e
      → (in_session m s).1.session.saved ≡ s.session.saved
  unfolding in_session
  in_session-err committed m s {e} outcome h =
      err_kept (m (record s { session = rollback s.session })) h
        (outcome (record s { session = rollback s.session }))
    where
      err_kept :
          (out : Result Exn A × State W)
          → out.0 ≡ err e
          → Outcome committed (record s { session = rollback s.session }) out
          → out.1.session.saved ≡ s.session.saved
      err_kept (ok a, u) h o = absurd (ground arith)
      err_kept (err x, u) h o = o

module _ {W A B : Type 0} where
  -- a chain that raised: its first part did, or the rest on what that returned
  then_some-err :
      (m : Exec Exn (State W) (Option A)) (f : A → Exec Exn (State W) (Option B)) (s t : State W)
      {e : Exn}
      → (m >>= if_some f) s ≡ (err e, t)
      → (m s ≡ (err e, t)) ⊎ ((a : A) × (m s ≡ (ok (some a), (m s).1)) × (f a (m s).1 ≡ (err e, t)))
  unfolding if_some
  then_some-err m f s t {e} h = split (m s) h
    where
      split :
          (out : Result Exn (Option A) × State W)
          → continue (if_some f) out.0 out.1 ≡ (err e, t)
          → (out ≡ (err e, t)) ⊎ ((a : A) × (out ≡ (ok (some a), out.1)) × (f a out.1 ≡ (err e, t)))
      split (err x, u) h = inl (ground arith)
      split (ok none, u) h = absurd (ground arith)
      split (ok (some a), u) h = inr (a, refl, h)

module _ {W : Type 0} (repr : XmlEntry → Text) (client : BusyClient W) (woo : WooClient W)
    (fuel : ℕ) (settings : Settings) where
  abbrev centers_at : Bool → Exec Exn (State W) (Option SyncResult)
  centers_at = centers_step repr client woo fuel settings

  abbrev salesmen_at : Bool → Exec Exn (State W) (Option SyncResult)
  salesmen_at = salesmen_step repr client woo fuel settings

  abbrev series_at : ℕ → Exec Exn (State W) Unit
  series_at = series_step repr client woo fuel settings

  abbrev products_at : Bool → ℕ → Exec Exn (State W) (Option SyncResult)
  products_at = products_step repr client woo fuel settings

  -- where a run from `s` raised, and what it has committed by then
  pub data FailedAt (full : Bool) (clock : Clock) (s : State W) (e : Exn) (t : State W)
      : Type 0 where
    at_centers :
        (centers_at full s).0 ≡ err e
        → t.session.saved ≡ s.session.saved
        → FailedAt full clock s e t
    at_salesmen :
        (centers : SyncResult) (u : State W)
        → centers_at full s ≡ (ok (some centers), u)
        → (salesmen_at full u).0 ≡ err e
        → t.session.saved ≡ u.session.saved
        → FailedAt full clock s e t
    at_products :
        (centers salesmen : SyncResult) (u v : State W)
        → centers_at full s ≡ (ok (some centers), u)
        → salesmen_at full u ≡ (ok (some salesmen), v)
        → (products_at full clock.products_at (series_at clock.series_at v).1).0 ≡ err e
        → t.session.saved ≡ (series_at clock.series_at v).1.session.saved
        → FailedAt full clock s e t
    at_woo :
        (centers salesmen products : SyncResult) (u v x : State W)
        → centers_at full s ≡ (ok (some centers), u)
        → salesmen_at full u ≡ (ok (some salesmen), v)
        → products_at full clock.products_at (series_at clock.series_at v).1
          ≡ (ok (some products), x)
        → (woo_step repr client woo fuel settings clock.woo_at x).0 ≡ err e
        → t.session.saved ≡ x.session.saved
        → FailedAt full clock s e t

  -- a push that raises leaves what was committed before
  woo_step-err :
      (now : ℕ) (x t : State W) {e : Exn}
      → woo_step repr client woo fuel settings now x ≡ (err e, t)
      → t.session.saved ≡ x.session.saved
  unfolding woo_step
  woo_step-err now x t {e} h =
      let pushed =
        in_session (push_products_to_woocommerce woo now settings.woo_new_product_status) x in
      elim (Result-cases pushed.0) [
        | inl (result, e') ↦ absurd (ground (arith, e', h))
        | inr (e', failed) ↦ ground (
          arith,
          h,
          failed,
          in_session-err (λ r. true)
              (push_products_to_woocommerce woo now settings.woo_new_product_status) x
              (push_products_to_woocommerce_atomic woo now settings.woo_new_product_status) failed,
        )
      ]

  push_run-err :
      (now : ℕ) (centers salesmen products : SyncResult) (x t : State W) {e : Exn}
      → push_run repr client woo fuel settings now centers salesmen products x ≡ (err e, t)
      → woo_step repr client woo fuel settings now x ≡ (err e, t)
  unfolding push_run
  push_run-err now centers salesmen products x t h = ground arith

  step-err :
      (m : Exec Exn (State W) (Option SyncResult)) (s t : State W) {e : Exn}
      → ((u : State W) → Outcome is_some u (m u))
      → in_session m s ≡ (err e, t)
      → ((in_session m s).0 ≡ err e) × (t.session.saved ≡ s.session.saved)
  step-err m s t {e} outcome h =
      let failed : (in_session m s).0 ≡ err e = ground arith in
      (failed, ground (arith, in_session-err is_some m s outcome failed))

  products_err :
      (full : Bool) (clock : Clock) (s t : State W) (e : Exn) (centers salesmen : SyncResult)
      (u v : State W)
      → centers_at full s ≡ (ok (some centers), u)
      → salesmen_at full u ≡ (ok (some salesmen), v)
      → products_run repr client woo fuel settings full clock centers salesmen v ≡ (err e, t)
      → FailedAt full clock s e t
  unfolding products_run products_step series_step or_logged
  products_err full clock s t e centers salesmen u v first second h =
      let w = (series_at clock.series_at v).1 in
      elim (then_some-err (products_at full clock.products_at) _ w t h) [
        | inl failed ↦
            let r =
              step-err _ w t
                (sync_products_atomic repr client fuel full settings.catalog_sync_products_strategy
                  clock.products_at settings.catalog_sync_products_reconcile_interval_seconds
                  default_page_size settings.catalog_sync_products_detail_concurrency)
                failed in
            at_products centers salesmen u v first second r.0 r.1
        | inr (products, third, h') ↦
            let x = (products_at full clock.products_at w).1 in
            let failed = push_run-err clock.woo_at centers salesmen products x t h' in
            at_woo centers salesmen products u v x first second third (ground (arith, failed))
              (woo_step-err clock.woo_at x t failed)
      ]

  -- A run of the sync that raises has failed in one of its four raising steps, and has committed
  -- exactly what the steps before that one committed: a failing sync of the material centers, of
  -- the salesmen or of the products, and a failing push to WooCommerce, add nothing, and undo
  -- nothing of an earlier step. The resolving of the voucher series never makes a run fail.
  pub run_catalog_sync_keeps_steps :
      (full : Bool) (clock : Clock) (s t : State W) (e : Exn)
      → run_catalog_sync repr client woo fuel settings full clock s ≡ (err e, t)
      → FailedAt full clock s e t
  unfolding run_catalog_sync products_run centers_step salesmen_step products_step series_step
      or_logged
  run_catalog_sync_keeps_steps full clock s t e h = elim (then_some-err (centers_at full) _ s t h) [
    | inl failed ↦
        let r =
          step-err _ s t (sync_material_centers_atomic client fuel full default_page_size) failed in
        at_centers r.0 r.1
    | inr (centers, first, h') ↦
        elim (then_some-err (salesmen_at full) _ (centers_at full s).1 t h') [
          | inl failed ↦
              let r =
                step-err _ (centers_at full s).1 t
                  (sync_salesmen_atomic client fuel full default_page_size) failed in
              at_salesmen centers (centers_at full s).1 first r.0 r.1
          | inr (salesmen, second, h'') ↦
              products_err full clock s t e centers salesmen (centers_at full s).1
                (salesmen_at full (centers_at full s).1).1 first second h''
        ]
  ]
