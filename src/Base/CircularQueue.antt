-- ===== src/Base/CircularQueue.antt =====
-- base/circular_queue.hpp: `circular_queue`, a ring of `cap` slots of which one stays free.
pub mod Slots
pub mod Ops
pub mod Back
mod Tests
use netlib.Common.{
  ℕ, suc, ◌+◌, ◌-◌, ◌%◌, Bool, true, false, Option, none, some, List, ◌==◌, if◌then◌else◌, get_or,
  set, replicate,
}

-- `_element` is the block behind the pointer; a slot is `none` while no object lives in it.
pub record CircularQueue (A : Type 0) : Type 0 where
  pub cap : ℕ
  pub head : ℕ
  pub tail : ℕ
  pub element : List (Option A)

module _ {A : Type 0} where
  unfoldable pub new_queue : ℕ → CircularQueue A
  new_queue cap = record { cap = cap + 1; head = 0; tail = 0; element = replicate (cap + 1) none }

  unfoldable pub capacity : CircularQueue A → ℕ
  capacity q = q.cap - 1

  -- `size_t` arithmetic that does not wrap, since the block has fewer than 2 ^ 63 slots.
  unfoldable pub queue_size : CircularQueue A → ℕ
  queue_size q = (q.cap - q.head + q.tail) % q.cap

  unfoldable pub full : CircularQueue A → Bool
  full q = queue_size q == q.cap - 1

  unfoldable pub is_empty : CircularQueue A → Bool
  is_empty q = q.head == q.tail

  unfoldable pub front : CircularQueue A → Option A
  front q = get_or q.element q.head none

  unfoldable pub back : CircularQueue A → Option A
  back q = get_or q.element ((q.cap + q.tail - 1) % q.cap) none

  -- `pop_front(t)`: what it returns, and what it assigns to `t`; `pop_front()` is the same without
  -- them.
  unfoldable pub pop_front : CircularQueue A → CircularQueue A × Option (Option A)
  pop_front q = if q.head == q.tail then (q, none) else (
    record q { element = set q.element q.head none; head = (q.head + 1) % q.cap },
    some (get_or q.element q.head none),
  )

  unfoldable pub pop_back : CircularQueue A → CircularQueue A × Option (Option A)
  pop_back q =
      let last = (q.cap + q.tail - 1) % q.cap in
      if q.head == q.tail then (q, none) else (
        record q { tail = last; element = set q.element last none },
        some (get_or q.element last none),
      )

  unfoldable pub push_back : A → CircularQueue A → CircularQueue A × Bool
  push_back t q =
      if full q
      then (q, false)
      else (record q { element = set q.element q.tail (some t); tail = (q.tail + 1) % q.cap }, true)

  -- The loop of `clear`, on fuel.
  unfoldable pub clear_queue : ℕ → CircularQueue A → Option (CircularQueue A)
  clear_queue Prim.Native.Nat.zero q = none
  clear_queue (suc fuel) q =
      let rest = clear_queue fuel (pop_front q).0 in if q.head == q.tail then some q else rest

  unfoldable pub swap_queues : CircularQueue A × CircularQueue A → CircularQueue A × CircularQueue A
  swap_queues (a, b) = (b, a)
