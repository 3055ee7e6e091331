-- ===== src/Storage/TableEntry/Fallback.antt =====
-- What the start of a planned scan (src/storage/uc_table_entry.cpp) does with the catalog's gate, by how
-- the planning ended.
use unity_catalog.Base.{
  ℕ, suc, ◌≡◌, refl, ap, ◌∙◌, String, Option, none, some, List, [], ◌∷◌, Bool, true, false, str_eq,
  if◌then◌else◌,
}
use unity_catalog.Result.{Result, ok, err, io, interrupt}
use unity_catalog.Result.Exec.{Exec, continue, lift, ◌>>=◌}
use unity_catalog.Api.Data.{Table}
use unity_catalog.ScanPlan.{ScanPlanResult}
use unity_catalog.FileList.{multi_file_list}
use unity_catalog.Storage.Gate.{mark_scan_plan_available, mark_scan_plan_unavailable}
use unity_catalog.Storage.TableEntry.{
  BindData, Scanning, ScanState, on_world, build_delta_scan, fall_back, make_secret, create_secrets,
  scan_plan_files, plan, mark_available, mark_unavailable, planned, init_global,
}

module _ (env : Scanning) where
  -- The gate is the same before and behind the method, however it ends.
  pub record KeepsGate {A : Type 0} (m : Exec (ScanState env) A) : Type 0 where
    pub same : (s : ScanState env) → (m s).1.gate ≡ s.gate

  pub on_world-KeepsGate :
      {A : Type 0} (op : env.W → Result A × env.W) → KeepsGate (on_world env op)
  unfolding on_world
  on_world-KeepsGate op = record { same = λ s. refl }

  pub lift-KeepsGate : {A : Type 0} (r : Result A) → KeepsGate (lift r)
  lift-KeepsGate r = record { same = λ s. refl }

module _ (env : Scanning) {A B : Type 0} where
  continue-gate :
      (s : ScanState env) (r : Result A × ScanState env) (f : A → Exec (ScanState env) B)
      → r.1.gate ≡ s.gate
      → ((a : A) → KeepsGate env (f a))
      → (continue r.0 f r.1).1.gate ≡ s.gate
  continue-gate s (ok a, s') f h k = (k a).same s' ∙ h
  continue-gate s (err e, s') f h k = h

  pub >>=-KeepsGate :
      (m : Exec (ScanState env) A) (f : A → Exec (ScanState env) B)
      → KeepsGate env m
      → ((a : A) → KeepsGate env (f a))
      → KeepsGate env (m >>= f)
  >>=-KeepsGate m f h k = record { same = λ s. continue-gate s (m s) f (h.same s) k }

module _ (env : Scanning) where
  pub build_delta_scan-KeepsGate : (t : Table) → KeepsGate env (build_delta_scan env t)
  unfolding build_delta_scan
  build_delta_scan-KeepsGate t =
      >>=-KeepsGate env (on_world env (env.refresh_credentials t)) _ (on_world-KeepsGate env _) λ u.
        >>=-KeepsGate env (on_world env (env.internal_attach t)) _ (on_world-KeepsGate env _)
          λ v. on_world-KeepsGate env (env.lookup_delta t)

  pub choice-KeepsGate :
      {A : Type 0} (b : Bool) (m n : Exec (ScanState env) A)
      → KeepsGate env m
      → KeepsGate env n
      → KeepsGate env (if b then m else n)
  choice-KeepsGate true m n h k = h
  choice-KeepsGate false m n h k = k

  fall_back-KeepsGate : (fallback : Option Table) → KeepsGate env (fall_back env fallback)
  unfolding fall_back
  fall_back-KeepsGate none = lift-KeepsGate env (err io)
  fall_back-KeepsGate (some t) =
      choice-KeepsGate (str_eq t.data_source_format "DELTA") _ _
        (>>=-KeepsGate env (build_delta_scan env t) _ (build_delta_scan-KeepsGate t)
          λ bound. on_world-KeepsGate env (env.adopt bound))
        (lift-KeepsGate env (err io))

  create_secrets-KeepsGate :
      (bd : BindData) (i : ℕ) (entries : List (String × List (String × String)))
      → KeepsGate env (create_secrets env bd i entries)
  unfolding create_secrets
  create_secrets-KeepsGate bd i [] = lift-KeepsGate env (ok tt)
  create_secrets-KeepsGate bd i (entry ∷ rest) =
      >>=-KeepsGate env (on_world env (env.create_secret (make_secret env bd i entry))) _
        (on_world-KeepsGate env _) λ u. create_secrets-KeepsGate bd (suc i) rest

  scan_plan_files-KeepsGate :
      (bd : BindData) (result : ScanPlanResult) → KeepsGate env (scan_plan_files env bd result)
  unfolding scan_plan_files
  scan_plan_files-KeepsGate bd result =
      >>=-KeepsGate env (create_secrets env bd 0 result.storage_credentials) _
        (create_secrets-KeepsGate bd 0 result.storage_credentials)
        λ u.
          >>=-KeepsGate env (lift (multi_file_list result)) _
            (lift-KeepsGate env (multi_file_list result))
            λ list.
              >>=-KeepsGate env (on_world env (env.bind_parquet _ list)) _
                (on_world-KeepsGate env _) λ bound. on_world-KeepsGate env (env.adopt bound)

  plan-KeepsGate : (bd : BindData) → KeepsGate env (plan env bd)
  unfolding plan
  plan-KeepsGate bd =
      >>=-KeepsGate env (on_world env (env.plan_table_scan bd)) _ (on_world-KeepsGate env _)
        λ result.
          choice-KeepsGate _ _ _ (lift-KeepsGate env (ok result)) (lift-KeepsGate env (err io))

  -- No Delta table is known that could be read instead.
  abbrev pub NoFallback : Option Table → Type 0
  NoFallback none = Unit
  NoFallback (some t) = str_eq t.data_source_format "DELTA" ≡ false

  -- What the start of the scan has done, by how the planning ended in which state.
  abbrev pub StartedBy : BindData → ScanState env → Result ScanPlanResult × ScanState env → Type 0
  StartedBy bd s (ok result, s') = (init_global env bd s).1.gate ≡ mark_scan_plan_available s.gate
  StartedBy bd s (err interrupt, s') = init_global env bd s ≡ (err interrupt, s')
  StartedBy bd s (err e, s') =
      ((init_global env bd s).1.gate ≡ mark_scan_plan_unavailable (env.now s'.world) s.gate)
      × (NoFallback bd.fallback
          → ((init_global env bd s).0 ≡ err io) × ((init_global env bd s).1.world ≡ s'.world))

  fall_back-none :
      (fallback : Option Table) (s : ScanState env)
      → NoFallback fallback
      → fall_back env fallback s ≡ (err io, s)
  unfolding fall_back
  fall_back-none none s h = refl
  fall_back-none (some t) s h = rw (h, fall_back) refl

  failed :
      (bd : BindData) (s s' : ScanState env)
      → bd.has_catalog ≡ true
      → s'.gate ≡ s.gate
      → ((fall_back env bd.fallback (mark_unavailable env bd s')).1.gate
          ≡ mark_scan_plan_unavailable (env.now s'.world) s.gate)
        × (NoFallback bd.fallback
            → ((fall_back env bd.fallback (mark_unavailable env bd s')).0 ≡ err io)
              × ((fall_back env bd.fallback (mark_unavailable env bd s')).1.world ≡ s'.world))
  unfolding mark_unavailable
  failed bd s s' on h =
      let marked : (mark_unavailable env bd s').gate
          ≡ mark_scan_plan_unavailable (env.now s'.world) s.gate =
        simp (on, mark_unavailable, h) in
      let world : (mark_unavailable env bd s').world ≡ s'.world = simp (on, mark_unavailable) in
      (
        (fall_back-KeepsGate bd.fallback).same _ ∙ marked,
        λ none_there.
            rw (fall_back-none bd.fallback (mark_unavailable env bd s') none_there) (refl, world),
      )

  planned-StartedBy :
      (bd : BindData) (s : ScanState env) (r : Result ScanPlanResult × ScanState env)
      → bd.has_catalog ≡ true
      → r.1.gate ≡ s.gate
      → init_global env bd s ≡ planned env bd r
      → StartedBy bd s r
  unfolding planned mark_available
  planned-StartedBy bd s (ok result, s') on h e =
      ap (λ q. q.1.gate) e
      ∙ (scan_plan_files-KeepsGate bd result).same (mark_available env bd s')
      ∙ simp (on, mark_available, h)
  planned-StartedBy bd s (err interrupt, s') on h e = e
  planned-StartedBy bd s (err x, s') on h e = rw e (failed bd s s' on h)

  -- The marks, by how the section that they are about ended.
  pub init_global-StartedBy :
      (bd : BindData) (s : ScanState env) → bd.has_catalog ≡ true → StartedBy bd s (plan env bd s)
  unfolding init_global
  init_global-StartedBy bd s on =
      planned-StartedBy bd s (plan env bd s) on ((plan-KeepsGate bd).same s) refl
