-- ===== src/Scripts/SeedImport.antt =====
-- scripts/seed_import_woocommerce.py: the one push that takes the store out of seed mode. What is
-- typed at the prompt is a parameter.
pub mod Guard
use fembin.Base.{ℕ, Text, codes, text_eq, Option, none, some, List, [], ◌∷◌, Bool, true, false}
use fembin.Exec.{Exec, Result, ok, err, pure, ◌>>=◌, ◌>>◌}
use fembin.Errors.{Exn}
use fembin.Strings.{strip, lower}
use fembin.Db.{State}
use fembin.Catalog.Stamps.{on_now}
use fembin.Catalog.Scheduler.{in_session}
use fembin.Woo.Client.{WooClient}
use fembin.Woo.Push.{WooPushResult, get_woo_sync_state, set_seeded, push_products_to_woocommerce}

-- how the script ends without an exception
pub data SeedImport : Type 0 where
  not_configured already_seeded aborted : SeedImport
  imported : WooPushResult → SeedImport

-- confirm.strip().lower() == "yes"
unfoldable pub is_confirmed : Text → Bool
is_confirmed confirm = text_eq (lower (strip confirm)) (codes "yes")

module _ {W : Type 0} (woo : WooClient W) (new_product_status : Text) (now : ℕ) where
  unfoldable pub import_all : Exec Exn (State W) SeedImport
  import_all = do
    set_seeded
    result ← push_products_to_woocommerce woo now new_product_status
    pure (imported result)

  unfoldable pub if_confirmed : Text → Bool → Exec Exn (State W) SeedImport
  if_confirmed confirm true s = (ok already_seeded, s)
  if_confirmed confirm false s = elim (is_confirmed confirm) [
    | true ↦ import_all s
    | false ↦ (ok aborted, s)
  ]

  -- the script's session, from reading the state to closing
  unfoldable pub guarded_import : Text → Exec Exn (State W) SeedImport
  guarded_import confirm = do state ← on_now get_woo_sync_state; if_confirmed confirm state.seeded

  unfoldable pub seed_import : (woo_site_url confirm : Text) → Exec Exn (State W) SeedImport
  seed_import [] confirm s = (ok not_configured, s)
  seed_import (c ∷ url) confirm s = in_session (guarded_import confirm) s
