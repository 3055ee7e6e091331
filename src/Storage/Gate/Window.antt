-- ===== src/Storage/Gate/Window.antt =====
-- A catalog whose planned scans failed (src/storage/unity_catalog.cpp) is left alone for a while, and
-- then asked again.
use unity_catalog.Base.{
  ℕ, ◌+◌, ◌-◌, ◌≤◌, ◌<◌, ◌≡◌, refl, ◌∙◌, Bool, true, false, ◌||◌, ltb, List, [], ◌∷◌, All, arith,
  lt→ltb, le→ltb-false,
}
use unity_catalog.Storage.Gate.{
  Gate, unknown, scan_plan_re_probe, try_state, should_try_scan_plan, mark_scan_plan_unavailable,
}

-- Tries one behind the other, at some times; whether any of them was let through.
pub tries : List ℕ → Gate → Bool × Gate
tries [] g = (false, g)
tries (now ∷ times) g =
    let (first, g') = should_try_scan_plan now g in
    let (later, g'') = tries times g' in (first || later, g'')

asks :
    (now : ℕ) (g : Gate) → g.use_irc_scan_plan ≡ true → should_try_scan_plan now g ≡ try_state now g
unfolding should_try_scan_plan
asks now g on = simp (on, should_try_scan_plan)

early_try :
    (g : Gate) (since now : ℕ)
    → ltb (now - since) scan_plan_re_probe ≡ true
    → try_state now (mark_scan_plan_unavailable since g)
      ≡ (false, mark_scan_plan_unavailable since g)
unfolding try_state mark_scan_plan_unavailable
early_try g since now early = rw (early, try_state) refl

late_try :
    (g : Gate) (since now : ℕ)
    → ltb (now - since) scan_plan_re_probe ≡ false
    → try_state now (mark_scan_plan_unavailable since g)
      ≡ (true, record g { scan_plan_state = unknown; scan_plan_unavailable_since = since })
unfolding try_state mark_scan_plan_unavailable
late_try g since now late = rw (late, try_state) refl

pub blocked :
    (g : Gate) (since now : ℕ)
    → g.use_irc_scan_plan ≡ true
    → now < since + scan_plan_re_probe
    → should_try_scan_plan now (mark_scan_plan_unavailable since g)
      ≡ (false, mark_scan_plan_unavailable since g)
unfolding mark_scan_plan_unavailable
blocked g since now on h =
    asks now (mark_scan_plan_unavailable since g) on
    ∙ early_try g since now (lt→ltb _ _ (omega arith))

blocked-All :
    (g : Gate) (since : ℕ) (times : List ℕ)
    → g.use_irc_scan_plan ≡ true
    → All (λ now. now < since + scan_plan_re_probe) times
    → tries times (mark_scan_plan_unavailable since g) ≡ (false, mark_scan_plan_unavailable since g)
unfolding tries
blocked-All g since [] on h = refl
blocked-All g since (now ∷ times) on h =
    rw (blocked g since now on h.0, tries) (blocked-All g since times on h.1)

released :
    (g : Gate) (since now : ℕ)
    → g.use_irc_scan_plan ≡ true
    → since + scan_plan_re_probe ≤ now
    → should_try_scan_plan now (mark_scan_plan_unavailable since g)
      ≡ (true, record g { scan_plan_state = unknown; scan_plan_unavailable_since = since })
unfolding mark_scan_plan_unavailable
released g since now on h =
    asks now (mark_scan_plan_unavailable since g) on
    ∙ late_try g since now (le→ltb-false _ _ (omega arith))

-- Where planned scans are asked for, and after one was marked as unavailable: of any number of tries
-- in the fifteen minutes from then on none is let through, and none changes when the next may be;
-- the first try behind them, at the end of that time or later, is let through, and forgets that the
-- scans were unavailable.
pub tries-window :
    (g : Gate) (since now : ℕ) (times : List ℕ)
    → g.use_irc_scan_plan ≡ true
    → All (λ t. t < since + scan_plan_re_probe) times
    → since + scan_plan_re_probe ≤ now
    → ((tries times (mark_scan_plan_unavailable since g)).0 ≡ false)
      × (should_try_scan_plan now (tries times (mark_scan_plan_unavailable since g)).1
          ≡ (true, record g { scan_plan_state = unknown; scan_plan_unavailable_since = since }))
tries-window g since now times on early late =
    rw (blocked-All g since times on early) (refl, released g since now on late)
