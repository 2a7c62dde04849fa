-- ===== src/Scripts/SeedImport/Guard.antt =====
-- scripts/seed_import_woocommerce.py: when nothing is sent, and that it is meant to happen once.
use fembin.Base.{ℕ, ◌≡◌, refl, Text, [], ◌∷◌, Bool, true, false, arith, ◌⊎◌, inl, inr, Bool-cases}
use fembin.Exec.{ok}
use fembin.Db.{Db, State}
use fembin.Catalog.Scheduler.{in_session}
use fembin.Woo.Client.{WooClient}
use fembin.Woo.Push.{get_woo_sync_state, or_fresh}
use fembin.Scripts.SeedImport.{
  not_configured, already_seeded, aborted, is_confirmed, if_confirmed, guarded_import, seed_import,
}

-- the store's state says that the import was made
abbrev pub is_seeded : Db → Bool
is_seeded db = (or_fresh db.woo_sync_state).seeded

module _ {W : Type 0} (woo : WooClient W) (new_product_status : Text) (now : ℕ) where
  -- The import sends nothing and commits nothing if WooCommerce is not configured, if it was made
  -- before, or unless "yes" is typed at the prompt.
  pub seed_import_guarded :
      (woo_site_url confirm : Text) (s : State W)
      → ((woo_site_url ≡ []) ⊎ (is_seeded s.session.saved ≡ true) ⊎ (is_confirmed confirm ≡ false))
      → let (r, t) = seed_import woo new_product_status now woo_site_url confirm s in
        ((r ≡ ok not_configured) ⊎ (r ≡ ok already_seeded) ⊎ (r ≡ ok aborted))
        × (t.net ≡ s.net)
        × (t.session.saved ≡ s.session.saved)
  unfolding seed_import in_session guarded_import if_confirmed get_woo_sync_state
  seed_import_guarded [] confirm s h = (inl refl, refl, refl)
  seed_import_guarded (c ∷ url) confirm s h = elim (Bool-cases (is_seeded s.session.saved)) [
    | inl seeded ↦ (inr (inl (ground arith)), ground arith, ground arith)
    | inr fresh ↦ elim (Bool-cases (is_confirmed confirm)) [
      | inl yes_typed ↦ absurd (ground arith)
      | inr other ↦ (inr (inr (ground arith)), ground arith, ground arith)
    ]
  ]
