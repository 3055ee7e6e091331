-- ===== src/Storage/Backfill/Watermark.antt =====
-- The watermark of `BackfillCommits` (src/storage/uc_table_set.cpp) never passes a gap.
use unity_catalog.Base.{
  ℕ, ◌≤◌, ◌≡◌, refl, subst, Option, none, some, List, [], ◌∷◌, All, Bool, true, false, leb, arith,
  ◌⊎◌, inl, inr, Bool-cases,
}
use unity_catalog.Result.{Result, ok, err}
use unity_catalog.Api.Data.{Commit}
use unity_catalog.Storage.Backfill.{
  LogFiles, insert, sort, is_backfilled, copy_staged_commit, after_copy, backfill_loop,
  backfill_commits,
}

abbrev IsSorted : List Commit → Type 0
IsSorted [] = Unit
IsSorted (c ∷ cs) = All (λ d. c.version ≤ d.version) cs × IsSorted cs

All-widen :
    (m n : ℕ) (cs : List Commit) → m ≤ n → All (λ d. n ≤ d.version) cs → All (λ d. m ≤ d.version) cs
All-widen m n [] h a = tt
All-widen m n (c ∷ cs) h a = (omega arith, All-widen m n cs h a.1)

All-insert :
    (P : Commit → Type 0) (c : Commit) (ds : List Commit) → P c → All P ds → All P (insert c ds)
unfolding insert
All-insert P c [] h a = (h, tt)
All-insert P c (d ∷ ds) h a = elim (Bool-cases (leb c.version d.version)) [
  | inl f ↦ rw f (h, a)
  | inr f ↦ rw f (a.0, All-insert P c ds h a.1)
]

All-uninsert :
    (P : Commit → Type 0) (c : Commit) (ds : List Commit) → All P (insert c ds) → P c × All P ds
unfolding insert
All-uninsert P c [] a = a
All-uninsert P c (d ∷ ds) a = elim (Bool-cases (leb c.version d.version)) [
  | inl f ↦ (rw f at a)
  | inr f ↦
      let split : All P (d ∷ insert c ds) = rw f at a in
      let (h, g) = All-uninsert P c ds split.1 in (h, (split.0, g))
]

insert-IsSorted : (c : Commit) (ds : List Commit) → IsSorted ds → IsSorted (insert c ds)
unfolding insert
insert-IsSorted c [] s = (tt, tt)
insert-IsSorted c (d ∷ ds) s = elim (Bool-cases (leb c.version d.version)) [
  | inl f ↦
      let low : c.version ≤ d.version = ground arith in
      rw f ((low, All-widen c.version d.version ds low s.0), s)
  | inr f ↦
      rw f
        (All-insert (λ e. d.version ≤ e.version) c ds (ground arith) s.0, insert-IsSorted c ds s.1)
]

sort-IsSorted : (cs : List Commit) → IsSorted (sort cs)
unfolding sort
sort-IsSorted [] = tt
sort-IsSorted (c ∷ cs) = insert-IsSorted c (sort cs) (sort-IsSorted cs)

All-unsort : (P : Commit → Type 0) (cs : List Commit) → All P (sort cs) → All P cs
unfolding sort
All-unsort P [] a = tt
All-unsort P (c ∷ cs) a = let (h, g) = All-uninsert P c (sort cs) a in (h, All-unsort P cs g)

module _ (files : LogFiles) where
  open files use {W}

  -- A staged commit of the version was copied, or was found in the log.
  pub data Published (version : ℕ) : Type 0 where
    published :
        (c : Commit) (b : Bool) (w w' : W)
        → c.version ≡ version
        → copy_staged_commit files c w ≡ (ok b, w')
        → Published version

  -- A version that the old watermark covers, or the new one does not, or that was published.
  abbrev pub Accounted : Option ℕ → Option ℕ → Commit → Type 0
  Accounted old new c =
      (is_backfilled c.version old ≡ true)
      ⊎ (is_backfilled c.version new ≡ false)
      ⊎ Published c.version

  abbrev pub Rises : Option ℕ → Option ℕ → Type 0
  Rises none new = Unit
  Rises (some m) none = ⊥
  Rises (some m) (some n) = m ≤ n

  abbrev Advances : List Commit → Option ℕ → Option ℕ → Type 0
  Advances cs old new = Rises old new × All (Accounted old new) cs

  pub Rises-refl : (o : Option ℕ) → Rises o o
  Rises-refl none = tt
  Rises-refl (some m) = omega arith

  uncovered :
      (old : Option ℕ) (v : ℕ) (cs : List Commit)
      → is_backfilled v old ≡ false
      → All (λ d. v ≤ d.version) cs
      → All (Accounted old old) cs
  uncovered old v [] h a = tt
  uncovered none v (c ∷ cs) h a = (inr (inl refl), uncovered none v cs h a.1)
  uncovered (some m) v (c ∷ cs) h a = (inr (inl (ground arith)), uncovered (some m) v cs h a.1)

  -- What a later round accounts for, seen from before the copy of version `v`.
  account_before :
      (old new : Option ℕ) (v : ℕ) (d : Commit)
      → v ≤ d.version
      → Published v
      → Accounted (some v) new d
      → Accounted old new d
  account_before old new v d low p (inr a) = inr a
  account_before old new v d low p (inl h) =
      let same : v ≡ d.version = ground arith in inr (inr (subst Published same p))

  All-before :
      (old new : Option ℕ) (v : ℕ) (cs : List Commit)
      → All (λ d. v ≤ d.version) cs
      → Published v
      → All (Accounted (some v) new) cs
      → All (Accounted old new) cs
  All-before old new v [] low p a = tt
  All-before old new v (d ∷ cs) low p a =
      (account_before old new v d low.0 p a.0, All-before old new v cs low.1 p a.1)

  Rises-before :
      (old new : Option ℕ) (v : ℕ)
      → is_backfilled v old ≡ false
      → Rises (some v) new
      → Rises old new
  Rises-before none new v h r = tt
  Rises-before (some m) none v h r = r
  Rises-before (some m) (some n) v h r = ground arith

  after_copy-Advances :
      (c : Commit) (cs : List Commit) (old : Option ℕ) (w : W)
      → is_backfilled c.version old ≡ false
      → All (λ d. c.version ≤ d.version) cs
      → ((o : Option ℕ) (v : W) → Advances cs o (backfill_loop files cs o v).0)
      → (r : Result Bool × W) → copy_staged_commit files c w ≡ r
      → Advances (c ∷ cs) old (after_copy files c.version old (backfill_loop files cs) r).0
  unfolding after_copy
  after_copy-Advances c cs old w h low ih (err e, v) eq =
      (Rises-refl old, (inr (inl h), uncovered old c.version cs h low))
  after_copy-Advances c cs old w h low ih (ok b, v) eq =
      let (up, all) = ih (some c.version) v in
      let p = published c b w v refl eq in
      let new = (backfill_loop files cs (some c.version) v).0 in
      (
        Rises-before old new c.version h up,
        (inr (inr p), All-before old new c.version cs low p all),
      )

  skips :
      (c : Commit) (cs : List Commit) (old : Option ℕ) (w : W)
      → is_backfilled c.version old ≡ true
      → backfill_loop files cs old w ≡ backfill_loop files (c ∷ cs) old w
  unfolding backfill_loop
  skips c cs old w h = rw (h, backfill_loop) refl

  copies :
      (c : Commit) (cs : List Commit) (old : Option ℕ) (w : W)
      → is_backfilled c.version old ≡ false
      → after_copy files c.version old (backfill_loop files cs) (copy_staged_commit files c w)
        ≡ backfill_loop files (c ∷ cs) old w
  unfolding backfill_loop
  copies c cs old w h = rw (h, backfill_loop) refl

  loop-Advances :
      (cs : List Commit) (old : Option ℕ) (w : W)
      → IsSorted cs
      → Advances cs old (backfill_loop files cs old w).0
  loop-Advances [] old w s = unfold backfill_loop in (Rises-refl old, tt)
  loop-Advances (c ∷ cs) old w s = elim (Bool-cases (is_backfilled c.version old)) [
    | inl h ↦
        let (up, all) = loop-Advances cs old w s.1 in
        subst (λ p. Advances (c ∷ cs) old p.0) (skips c cs old w h) (up, (inl h, all))
    | inr h ↦
        subst (λ p. Advances (c ∷ cs) old p.0) (copies c cs old w h)
          (after_copy-Advances c cs old w h s.0 (λ o v. loop-Advances cs o v s.1)
            (copy_staged_commit files c w) refl)
  ]

  pub backfill_commits-Accounted :
      (commits : List Commit) (old : Option ℕ) (w : W)
      → Rises old (backfill_commits files commits old w).0
        × All (Accounted old (backfill_commits files commits old w).0) commits
  unfolding backfill_commits
  backfill_commits-Accounted commits old w =
      let (up, all) = loop-Advances (sort commits) old w (sort-IsSorted commits) in
      (up, All-unsort (Accounted old (backfill_loop files (sort commits) old w).0) commits all)
