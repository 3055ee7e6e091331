-- ===== src/DeleteFilter/Survivors.antt =====
-- `Filter` of src/include/uc_position_delete_filter.hpp selects the rows that are not deleted.
use unity_catalog.Base.{
  ℕ, zero, suc, ◌+◌, ◌%◌, ◌^◌, ◌≤◌, ◌<◌, ◌≡◌, refl, ap, some, Bool, false, true, not, ◌&&◌, ◌||◌,
  List, [], ◌∷◌, ◌++◌, append-nil, append_assoc, length, length-append, if◌then◌else◌, ◌==◌, leb,
  ltb, arith, ℤ, pos, Bool-cases, inl, inr,
}
use unity_catalog.DeleteFilter.{PositionDeleteFilter, contains, row_position, filter_loop, filter}

-- The indices `i`, …, `i + n - 1` at which the test `deleted` fails.
kept : (ℕ → Bool) → ℕ → ℕ → List ℕ
kept deleted zero i = []
kept deleted (suc n) i = let rest = kept deleted n (i + 1) in if deleted i then rest else i ∷ rest

abbrev at_row : PositionDeleteFilter → ℤ → ℕ → Bool
at_row f start i = contains f.positions (row_position start i)

-- The loop never writes behind the vector.
loop-kept :
    (size : ℕ) (f : PositionDeleteFilter) (start : ℤ) (n i : ℕ) (sel : List ℕ)
    → length sel + n ≤ size
    → filter_loop size f start n i sel ≡ some (sel ++ kept (at_row f start) n i)
unfolding kept filter_loop
loop-kept size f start zero i sel room = simp append-nil
loop-kept size f start (suc n) i sel room =
    elim (Bool-cases (contains f.positions (row_position start i))) [
      | inl hit ↦ rw (hit, filter_loop) (loop-kept size f start n (i + 1) sel (omega arith))
      | inr miss ↦
          let fits : ltb (length sel) size ≡ true = ground arith in
          let longer = length-append sel (i ∷ []) in
          rw (miss, filter_loop, fits)
            (rw (loop-kept size f start n (i + 1) (sel ++ i ∷ []) (omega (arith, longer)))
              (ap some (append_assoc sel (i ∷ []) (kept (at_row f start) n (i + 1)))))
    ]

abbrev pub mem : ℕ → List ℕ → Bool
mem j [] = false
mem j (x ∷ xs) = x == j || mem j xs

mem-kept :
    (deleted : ℕ → Bool) (n i j : ℕ)
    → mem j (kept deleted n i) ≡ (leb i j && ltb j (i + n) && not (deleted j))
unfolding kept
mem-kept deleted zero i j = ground arith
mem-kept deleted (suc n) i j = ground (arith, mem-kept deleted n (i + 1) j)

-- Strictly rising, from `n` on.
abbrev pub RisesFrom : ℕ → List ℕ → Type 0
RisesFrom n [] = Unit
RisesFrom n (x ∷ xs) = (n ≤ x) × RisesFrom (suc x) xs

RisesFrom-weaken : {m n : ℕ} (xs : List ℕ) → m ≤ n → RisesFrom n xs → RisesFrom m xs
RisesFrom-weaken [] h r = tt
RisesFrom-weaken (x ∷ xs) h r = (omega arith, r.1)

kept-RisesFrom : (deleted : ℕ → Bool) (n i : ℕ) → RisesFrom i (kept deleted n i)
unfolding kept
kept-RisesFrom deleted zero i = tt
kept-RisesFrom deleted (suc n) i = elim (Bool-cases (deleted i)) [
  | inl hit ↦
      rw hit
        (RisesFrom-weaken {m = i} {n = i + 1} _ (omega arith) (kept-RisesFrom deleted n (i + 1)))
  | inr miss ↦ rw miss (
    omega arith,
    RisesFrom-weaken {m = suc i} {n = i + 1} _ (omega arith) (kept-RisesFrom deleted n (i + 1)),
  )
]

filter-eq :
    (size : ℕ) (f : PositionDeleteFilter) (start : ℤ) (count : ℕ)
    → count ≤ size
    → filter size f start count
      ≡ some (length (kept (at_row f start) count 0), kept (at_row f start) count 0)
filter-eq size f start zero h = unfold filter kept in refl
filter-eq size f start (suc n) h =
    let some_row : (suc n == 0) ≡ false = ground arith in
    unfold filter in rw (some_row, loop-kept size f start (suc n) 0 [] (omega (arith, h))) refl

-- Nothing wraps around below 2 ^ 63.
row_position-eq : (row j : ℕ) → row + j < 2 ^ 63 → row_position (pos row) j ≡ pos (row + j)
unfolding row_position
row_position-eq row j h =
    let small : (row + j) % 2 ^ 64 ≡ row + j = omega arith in
    let low : ltb (row + j) (2 ^ 63) ≡ true = ground arith in rw (small, low) refl

survives :
    (f : PositionDeleteFilter) (row count j : ℕ)
    → row + count ≤ 2 ^ 63
    → mem j (kept (at_row f (pos row)) count 0)
      ≡ (ltb j count && not (contains f.positions (pos (row + j))))
survives f row count j h = elim (Bool-cases (ltb j count)) [
  | inl low ↦
      let same = row_position-eq row j (ground arith) in
      rw⁻¹ same (ground (arith, mem-kept (at_row f (pos row)) count 0 j))
  | inr high ↦ ground (arith, mem-kept (at_row f (pos row)) count 0 j)
]

-- The rows of a batch that fits into a vector and whose absolute positions are below 2 ^ 63: no index
-- is written behind the vector; a row index is selected exactly if it is below the count of the batch
-- and its absolute position is not a deleted one; the selection is strictly rising, so no row comes
-- twice or out of order; and the returned number is its length.
pub filter_selects_survivors :
    (size : ℕ) (f : PositionDeleteFilter) (row count : ℕ)
    → count ≤ size
    → row + count ≤ 2 ^ 63
    → (sel : List ℕ) × (filter size f (pos row) count ≡ some (length sel, sel))
      × ((j : ℕ) → mem j sel ≡ (ltb j count && not (contains f.positions (pos (row + j)))))
      × RisesFrom 0 sel
filter_selects_survivors size f row count fits low = (
  kept (at_row f (pos row)) count 0,
  filter-eq size f (pos row) count fits,
  λ j. survives f row count j low,
  kept-RisesFrom (at_row f (pos row)) count 0,
)
