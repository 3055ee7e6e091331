-- ===== src/Storage/CreateTable/Environment/Keeps.antt =====
-- What is read off the log of calls and no call of a method changes.
use unity_catalog.Base.{◌≡◌, refl, ◌∙◌, List, ◌∷◌}
use unity_catalog.Result.{Result, ok, err}
use unity_catalog.Result.Exec.{Exec, continue, lift, ◌>>=◌}
use unity_catalog.Storage.CreateTable.Environment.{Environment, Run, Event, call}

module _ (env : Environment) {X : Type 0} (view : List Event → X) where
  -- `view` reads the same of the log before and behind the method, however it ends.
  pub record Keeps {A : Type 0} (m : Exec (Run env) A) : Type 0 where
    pub same : (s : Run env) → view (m s).1.events ≡ view s.events

  -- An event that the view passes over.
  abbrev pub Skips : Event → Type 0
  Skips event = (es : List Event) → view (event ∷ es) ≡ view es

module _ (env : Environment) {X : Type 0} (view : List Event → X) {A : Type 0} where
  pub lift-Keeps : (r : Result A) → Keeps env view (lift {S = Run env} r)
  lift-Keeps r = record { same = λ s. refl }

  pub call-Keeps :
      (event : Event) (op : env.W → Result A × env.W)
      → Skips env view event
      → Keeps env view (call env event op)
  unfolding call
  call-Keeps event op h = record { same = λ s. h s.events }

module _ (env : Environment) {X : Type 0} (view : List Event → X) {A B : Type 0} where
  -- What stands behind a method, by how it ended.
  pub continue-Keeps :
      (x : X) (r : Result A × Run env) (f : A → Exec (Run env) B)
      → view r.1.events ≡ x
      → ((a : A) → Keeps env view (f a))
      → view (continue r.0 f r.1).1.events ≡ x
  continue-Keeps x (ok a, s) f h k = (k a).same s ∙ h
  continue-Keeps x (err e, s) f h k = h

  pub >>=-Keeps :
      (m : Exec (Run env) A) (f : A → Exec (Run env) B)
      → Keeps env view m
      → ((a : A) → Keeps env view (f a))
      → Keeps env view (m >>= f)
  >>=-Keeps m f h k = record { same = λ s. continue-Keeps (view s.events) (m s) f (h.same s) k }
