-- ===== src/Exec.antt =====
-- Python functions that change state and may raise: what was written before a raise stays written,
-- so the state comes back beside the exception too.
use mathlib.Core.Path.{◌≡◌, refl}
use mathlib.Core.Option.{Option, none, some}
use mathlib.Core.Logic.{◌⊎◌, inl, inr}
use native.Mathlib.Omega.{arith}
use mathlib.Core.Bool.{Bool, true, false}

pub data Result {ℓ} (E A : Type ℓ) : Type ℓ where
  ok : A → Result E A
  err : E → Result E A

abbrev pub Exec {ℓ} : Type ℓ → Type ℓ → Type ℓ → Type ℓ
Exec E S A = S → Result E A × S

module _ {ℓ} {E S A : Type ℓ} where
  abbrev pub pure : A → Exec E S A
  pure a s = (ok a, s)

  abbrev pub raise : E → Exec E S A
  raise e s = (err e, s)

  abbrev pub lift : Result E A → Exec E S A
  lift r s = (r, s)

  abbrev pub gets : (S → A) → Exec E S A
  gets f s = (ok (f s), s)

  abbrev pub or_raise : E → Option A → Exec E S A
  or_raise e none = raise e
  or_raise e (some a) = pure a

module _ {ℓ} {E S A B : Type ℓ} where
  abbrev pub continue : (A → Exec E S B) → Result E A → S → Result E B × S
  continue f (ok a) s = f a s
  continue f (err e) s = (err e, s)

  infixl 5 ◌>>=◌ ◌>>◌
  abbrev pub ◌>>=◌ : Exec E S A → (A → Exec E S B) → Exec E S B
  ◌>>=◌ m f s = let (r, s') = m s in continue f r s'

  abbrev pub ◌>>◌ : Exec E S A → Exec E S B → Exec E S B
  m >> k = m >>= λ _. k

module _ {E S : Type 0} where
  abbrev pub modify : (S → S) → Exec E S Unit
  modify f s = (ok tt, f s)

  abbrev pub raise_if : Bool → E → Exec E S Unit
  raise_if true e = raise e
  raise_if false e = pure tt

module _ {E A B : Type 0} where
  -- a chain of results with no state
  abbrev pub and_then : Result E A → (A → Result E B) → Result E B
  and_then (ok a) f = f a
  and_then (err e) f = err e

module _ {E A : Type 0} where
  pub Result-cases : (r : Result E A) → ((a : A) × (r ≡ ok a)) ⊎ ((e : E) × (r ≡ err e))
  Result-cases (ok a) = inl (a, refl)
  Result-cases (err e) = inr (e, refl)

-- Inversion of a step that succeeded, for proofs where the parts stay shut.
module _ {E S A B : Type 0} where
  continue-ok :
      (f : A → Exec E S B) (r : Result E A) (s' : S) {b : B} {t : S}
      → continue f r s' ≡ (ok b, t)
      → (a : A) × (r ≡ ok a) × (f a s' ≡ (ok b, t))
  continue-ok f (ok a) s' h = (a, refl, h)
  continue-ok f (err e) s' h = absurd (ground arith)

  pub >>=-ok :
      (m : Exec E S A) (f : A → Exec E S B) (s : S) {b : B} {t : S}
      → (m >>= f) s ≡ (ok b, t)
      → (a : A) × ((m s).0 ≡ ok a) × (f a (m s).1 ≡ (ok b, t))
  >>=-ok m f s h = continue-ok f (m s).0 (m s).1 h

module _ {E S A B : Type 0} where
  continue-keeps :
      (f : A → Exec E S B) (r : Result E A) (s : S)
      → ((a : A) (t : S) → (f a t).1 ≡ t)
      → (continue f r s).1 ≡ s
  continue-keeps f (ok a) s keeps = keeps a s
  continue-keeps f (err e) s keeps = refl

  pub >>=-keeps :
      (m : Exec E S A) (f : A → Exec E S B) (s : S)
      → ((a : A) (t : S) → (f a t).1 ≡ t)
      → ((m >>= f) s).1 ≡ (m s).1
  >>=-keeps m f s keeps = continue-keeps f (m s).0 (m s).1 keeps

-- What a chain does to the state, for a transitive relation that each of its parts respects.
module _ {E S A B : Type 0} (R : S → S → Type 0)
    (R_trans : (s t u : S) → R s t → R t u → R s u) where
  continue-rel :
      (f : A → Exec E S B) (r : Result E A) (s t : S)
      → R s t
      → ((a : A) (u : S) → R u (f a u).1)
      → R s (continue f r t).1
  continue-rel f (ok a) s t h later = R_trans s t (f a t).1 h (later a t)
  continue-rel f (err e) s t h later = h

  pub >>=-rel :
      (m : Exec E S A) (f : A → Exec E S B)
      → ((s : S) → R s (m s).1)
      → ((a : A) (s : S) → R s (f a s).1)
      → (s : S) → R s ((m >>= f) s).1
  >>=-rel m f first later s = continue-rel f (m s).0 s (m s).1 (first s) later
