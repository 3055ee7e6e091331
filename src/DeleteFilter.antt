-- ===== src/DeleteFilter.antt =====
-- src/include/uc_position_delete_filter.hpp: which rows of a batch survive a set of deleted
-- positions. A `SelectionVector` is the list of the indices written to it, in order.
pub mod Survivors
pub mod Build
use mathlib.Core.Option
use unity_catalog.Base.{
  ℕ, zero, suc, ◌+◌, ◌-◌, ◌%◌, ◌^◌, Option, none, some, Bool, true, false, ◌||◌, List, [], ◌∷◌,
  ◌++◌, length, if◌then◌else◌, ◌==◌, ltb, ℤ, pos, negsuc, eq_ℤ, to_int64,
}

-- `positions.count(x)` of an `unordered_set<int64_t>`.
pub contains : List ℤ → ℤ → Bool
contains [] x = false
contains (p ∷ ps) x = eq_ℤ p x || contains ps x

pub record PositionDeleteFilter : Type 0 where
  pub positions : List ℤ

-- `start_row_index + i` of an `int64_t` and a `uint64_t`, as an `int64_t` again.
abbrev pub word : ℤ → ℕ
word (pos n) = n
word (negsuc n) = 2 ^ 64 - suc n

pub row_position : ℤ → ℕ → ℤ
row_position start i = to_int64 ((word start + i) % 2 ^ 64)

-- `set_index(selected, i)`; `none` is a write behind the vector.
abbrev set_index : ℕ → ℕ → List ℕ → Option (List ℕ)
set_index vector_size i result_sel =
    if ltb (length result_sel) vector_size then some (result_sel ++ i ∷ []) else none

-- The loop of `Filter` from index `i`, with the rounds that are left and what `result_sel` holds.
filter_loop : ℕ → PositionDeleteFilter → ℤ → ℕ → ℕ → List ℕ → Option (List ℕ)
unfolding row_position
filter_loop vector_size f start zero i result_sel = some result_sel
filter_loop vector_size f start (suc n) i result_sel =
    elim (contains f.positions (row_position start i)) [
      | true ↦ filter_loop vector_size f start n (i + 1) result_sel
      | false ↦ elim (set_index vector_size i result_sel) [
        | none ↦ none
        | some grown ↦ filter_loop vector_size f start n (i + 1) grown
      ]
    ]

-- `Filter`: the number of selected rows and the selection; `vector_size` is `STANDARD_VECTOR_SIZE`.
pub filter : ℕ → PositionDeleteFilter → ℤ → ℕ → Option (ℕ × List ℕ)
filter vector_size f start_row_index count =
    let selection = filter_loop vector_size f start_row_index count 0 [] in
    if count == 0 then some (0, []) else Option.map (λ sel. (length sel, sel)) selection
