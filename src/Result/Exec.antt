-- ===== src/Result/Exec.antt =====
-- Methods that change an object and may throw: what was written before a throw stays written, so
-- the state comes back beside the exception too.
use unity_catalog.Base.{◌≡◌, refl}
use unity_catalog.Result.{Exception, Result, ok, err}

abbrev pub Exec {ℓ} : Type ℓ → Type ℓ → Type ℓ
Exec S A = S → Result A × S

module _ {ℓ} {S A : Type ℓ} where
  abbrev pub pure : A → Exec S A
  pure a s = (ok a, s)

  abbrev pub throw : Exception → Exec S A
  throw e s = (err e, s)

  -- A call that changes nothing and may throw.
  abbrev pub lift : Result A → Exec S A
  lift r s = (r, s)

module _ {ℓ} {S A B : Type ℓ} where
  abbrev pub continue : Result A → (A → Exec S B) → Exec S B
  continue (ok a) f s = f a s
  continue (err e) f s = (err e, s)

  continue-eq-ok :
      (r : Result A × S) (f : A → Exec S B) {b : B}
      → (continue r.0 f r.1).0 ≡ ok b
      → (a : A) × (s' : S) × (r ≡ (ok a, s')) × ((f a s').0 ≡ ok b)
  continue-eq-ok (ok a, s) f h = (a, s, refl, h)
  continue-eq-ok (err e, s) f h = cc

  infixl 5 ◌>>=◌ ◌>>◌
  abbrev pub ◌>>=◌ : Exec S A → (A → Exec S B) → Exec S B
  ◌>>=◌ m f s = continue (m s).0 f (m s).1

  abbrev pub ◌>>◌ : Exec S A → Exec S B → Exec S B
  m >> n = m >>= λ _. n

  -- What stands behind a successful method.
  pub >>=-eq-ok :
      (m : Exec S A) (f : A → Exec S B) (s : S) {b : B}
      → ((m >>= f) s).0 ≡ ok b
      → (a : A) × (s' : S) × (m s ≡ (ok a, s')) × ((f a s').0 ≡ ok b)
  >>=-eq-ok m f s h = continue-eq-ok (m s) f h
