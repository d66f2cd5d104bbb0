-- ===== src/Base/Svector.antt =====
-- base/svector.hpp: `svector`, an array that grows.
pub mod Filled
pub mod Back
mod Tests
use netlib.Common.{
  ℕ, ◌+◌, ◌-◌, ◌*◌, Bool, Option, none, some, List, [], ◌∷◌, ◌++◌, leb, ltb, ◌==◌, if◌then◌else◌,
  get_or, take, replicate, length, memcpy,
}

-- `_head` is the block behind the pointer; a slot is `none` while no object lives in it.
pub record Svector (A : Type 0) : Type 0 where
  pub cap : ℕ
  pub size : ℕ
  pub head : List (Option A)

-- The capacity of the constructor without an argument.
abbrev pub default_cap : ℕ
default_cap = 100

module _ {A : Type 0} where
  unfoldable pub new_svector : ℕ → Svector A
  new_svector cap = record { cap = cap; size = 0; head = replicate cap none }

  unfoldable pub svector_back : Svector A → Option A
  svector_back v = get_or v.head (v.size - 1) none

  unfoldable pub svector_pop_back : Svector A → Svector A
  svector_pop_back v =
      if v.size == 0
      then v
      else record v { size = v.size - 1; head = memcpy v.head (v.size - 1) (none ∷ []) }

  -- `realloc` to `n` elements.
  abbrev pub realloc : ℕ → List (Option A) → List (Option A)
  realloc n block = take n block ++ replicate (n - length block) none

  -- `push_back`; `none` is a write past the end of the block.
  unfoldable pub svector_push_back : A → Svector A → Option (Svector A)
  svector_push_back t v =
      let block = if leb v.cap v.size then realloc (v.cap * 2) v.head else v.head in
      if ltb v.size (length block)
      then some (record v { size = v.size + 1; head = memcpy block v.size (some t ∷ []) })
      else none

  unfoldable pub svector_clear : Svector A → Svector A
  svector_clear v = record v { size = 0; head = memcpy v.head 0 (replicate v.size none) }

  unfoldable pub svector_swap : Svector A × Svector A → Svector A × Svector A
  svector_swap (a, b) = (b, a)
