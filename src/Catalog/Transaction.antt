-- ===== src/Catalog/Transaction.antt =====
-- What a sync does with its transaction: all of it is committed, or nothing.
use fembin.Base.{◌≡◌, ◌∙◌, Bool, true, false}
use fembin.Exec.{Exec, Result, ok, err, ◌>>=◌, continue}
use fembin.Errors.{Exn}
use fembin.Db.{State}

-- the committed state after a run: the run's own, or as it was
abbrev pub Commits : {W : Type 0} → Bool → State W → State W → Type 0
Commits true s t = t.session.saved ≡ t.session.now
Commits false s t = t.session.saved ≡ s.session.saved

Commits-from :
    {W : Type 0} (b : Bool) (s t u : State W)
    → t.session.saved ≡ s.session.saved
    → Commits b t u
    → Commits b s u
Commits-from true s t u h o = o
Commits-from false s t u h o = o ∙ h

module _ {W A : Type 0} (done : A → Bool) where
  -- an error commits nothing, and an answer what `done` says
  abbrev pub Outcome : State W → Result Exn A × State W → Type 0
  Outcome s (err e, t) = t.session.saved ≡ s.session.saved
  Outcome s (ok a, t) = Commits (done a) s t

  Outcome-from :
      (s t : State W) (out : Result Exn A × State W)
      → t.session.saved ≡ s.session.saved
      → Outcome t out
      → Outcome s out
  Outcome-from s t (err e, u) h o = o ∙ h
  Outcome-from s t (ok a, u) h o = Commits-from (done a) s t u h o

module _ {W A B : Type 0} (done : B → Bool) where
  continue-Outcome :
      (f : A → Exec Exn (State W) B) (r : Result Exn A) (s t : State W)
      → t.session.saved ≡ s.session.saved
      → ((a : A) (u : State W) → Outcome done u (f a u))
      → Outcome done s (continue f r t)
  continue-Outcome f (ok a) s t h later = Outcome-from done s t (f a t) h (later a t)
  continue-Outcome f (err e) s t h later = h

  -- a step that commits nothing, and a run behind it
  pub >>=-Outcome :
      (m : Exec Exn (State W) A) (f : A → Exec Exn (State W) B)
      → ((s : State W) → (m s).1.session.saved ≡ s.session.saved)
      → ((a : A) (u : State W) → Outcome done u (f a u))
      → (s : State W) → Outcome done s ((m >>= f) s)
  >>=-Outcome m f quiet later s = continue-Outcome f (m s).0 s (m s).1 (quiet s) later
