-- ===== src/Base/CircularQueue/Ops.antt =====
-- Each operation of `circular_queue` (base/circular_queue.hpp) on the sequence that it holds.
use netlib.Common.{
  ℕ, suc, ◌+◌, ◌-◌, ◌%◌, ◌<◌, ◌≡◌, ◌≢◌, refl, sym, ap, ap₂, ◌∙◌, ◌⊎◌, inl, inr, true, false, Option,
  none, some, List, [], ◌∷◌, ◌++◌, arith, Bool-cases, ◌==◌, ==_iff, ==_ne, ne_==, ==_refl, get_or,
  set, length, length-append, length-set, length-replicate, map, drop,
}
use native.Mathlib.Nat.{mod-lt}
use native.Mathlib.Decide.{dec_lt}
use netlib.Base.CircularQueue.{CircularQueue, new_queue, queue_size, full, pop_front, push_back}
use netlib.Base.CircularQueue.Slots.{
  wrap_small, wrap_big, slot, slots, slots-snoc, slots-set, slots-head, slot-suc, slot-zero,
  slot-slot, slot_ne, get_or-set_same,
}

module _ {A : Type 0} where
  -- The queue `q` holds `xs`, the front first.
  pub record Holding (q : CircularQueue A) (xs : List A) : Type 0 where
    pub head_in : q.head < q.cap
    pub block : length q.element ≡ q.cap
    pub room : length xs < q.cap
    pub placed : q.tail ≡ slot q.cap q.head (length xs)
    pub items : slots q.element q.cap q.head 0 (length xs) ≡ map some xs

  pub new_queue-Holding : (cap : ℕ) → Holding (new_queue cap) []
  unfolding new_queue
  new_queue-Holding cap = record {
    head_in = omega arith;
    block = length-replicate {A = Option A} (cap + 1) none;
    room = omega arith;
    placed = sym (wrap_small 0 (cap + 1) (omega arith));
    items = refl;
  }

  module _ {q : CircularQueue A} {xs : List A} (h : Holding q xs) where
    tail_in : q.tail < q.cap
    tail_in = elim (dec_lt (q.head + length xs) q.cap) [
      | yes p ↦ omega (arith, h.placed, wrap_small (q.head + length xs) q.cap p)
      | no p ↦ omega (
        arith,
        h.placed,
        h.head_in,
        h.room,
        wrap_big (q.head + length xs) q.cap (omega arith) (omega (arith, h.head_in, h.room)),
      )
    ]

    pub queue_size-length : queue_size q ≡ length xs
    unfolding queue_size
    queue_size-length = elim (dec_lt (q.head + length xs) q.cap) [
      | yes p ↦
          let t = h.placed ∙ wrap_small (q.head + length xs) q.cap p in
          wrap_big (q.cap - q.head + q.tail) q.cap (omega (arith, t))
            (omega (arith, t, h.room, h.head_in))
          ∙ omega (arith, t, h.head_in)
      | no p ↦
          let t =
            h.placed
            ∙ wrap_big (q.head + length xs) q.cap (omega arith)
                (omega (arith, h.head_in, h.room)) in
          wrap_small (q.cap - q.head + q.tail) q.cap (omega (arith, t, h.room, h.head_in))
          ∙ omega (arith, t, h.head_in)
    ]

    -- A slot in use is not the one at the tail.
    pub used : (k : ℕ) → k < length xs → q.tail ≢ slot q.cap q.head k
    used k lt e = slot_ne q.cap q.head k (length xs) h.head_in lt h.room (sym h.placed ∙ e)

  pub length-map : (xs : List A) → length (map some xs) ≡ length xs
  length-map [] = refl
  length-map (x ∷ xs) = ap suc (length-map xs)

  pub map-snoc : (xs : List A) (x : A) → map some (xs ++ (x ∷ [])) ≡ map some xs ++ (some x ∷ [])
  map-snoc [] x = refl
  map-snoc (y ∷ xs) x = ap (◌∷◌ (some y)) (map-snoc xs x)

  pub length-snoc : (xs : List A) (x : A) → length (xs ++ (x ∷ [])) ≡ suc (length xs)
  length-snoc xs x = omega (arith, length-append xs (x ∷ []))

  -- On a queue that holds a sequence, push_back either succeeds, and the queue holds the sequence
  -- with the new element at the end, or it changes nothing and returns false, and the sequence
  -- fills all but one of the slots.
  pub push_back-Holding :
      {q : CircularQueue A} {xs : List A} (t : A)
      → Holding q xs
      → ((push_back t q).1 ≡ true) × Holding (push_back t q).0 (xs ++ (t ∷ []))
        ⊎ ((push_back t q ≡ (q, false)) × (length xs + 1 ≡ q.cap))
  unfolding push_back full
  push_back-Holding {q} {xs} t h =
      let n = queue_size-length h in
      elim (Bool-cases (queue_size q == q.cap - 1)) [
        | inl e ↦ rw e (inr (refl, omega (arith, (==_iff _ _).0 e, n, h.room)))
        | inr e ↦ rw e (
            inl (
              refl,
              record {
                head_in = h.head_in;
                block = length-set q.element q.tail (some t) ∙ h.block;
                room = omega (arith, ==_ne e, n, h.room, length-snoc xs t);
                placed =
                    ap (λ k. (k + 1) % q.cap) h.placed
                    ∙ slot-suc q.cap q.head (length xs)
                    ∙ ap (slot q.cap q.head) (sym (length-snoc xs t));
                items =
                    ap (slots (set q.element q.tail (some t)) q.cap q.head 0) (length-snoc xs t)
                    ∙ slots-snoc _ q.cap q.head 0 (length xs)
                    ∙ ap₂ (λ ys y. ys ++ (y ∷ []))
                        (slots-set q.element q.cap q.head 0 (length xs) q.tail (some t)
                            (λ k lt le. used h k (omega arith))
                          ∙ h.items)
                        (ap (λ k. get_or (set q.element q.tail (some t)) k none)
                            (ap (slot q.cap q.head) {x = 0 + length xs} (omega arith)
                              ∙ sym h.placed)
                          ∙ get_or-set_same q.element q.tail (some t) none
                              (omega (arith, tail_in h, h.block)))
                    ∙ sym (map-snoc xs t);
              },
            ))
      ]

  -- On a queue that holds a non-empty sequence, pop_front yields its first element and the queue
  -- holds the rest.
  pub pop_front-Holding :
      {q : CircularQueue A} {x : A} {xs : List A}
      → Holding q (x ∷ xs)
      → ((pop_front q).1 ≡ some (some x)) × Holding (pop_front q).0 xs
  unfolding pop_front
  pop_front-Holding {q} {x} {xs} h =
      let some_there : (q.head == q.tail) ≡ false =
        ne_== _ _ (λ e. used h 0 (omega arith) (sym e ∙ sym (slot-zero q.cap q.head h.head_in))) in
      let first : get_or q.element q.head none ≡ some x =
        ap (λ k. get_or q.element k none) (sym (slot-zero q.cap q.head h.head_in))
        ∙ ap (λ l. get_or l 0 none) h.items in
      rw some_there (
        ap some first,
        record {
          head_in = mod-lt (q.head + 1) (omega (arith, h.head_in));
          block = length-set q.element q.head none ∙ h.block;
          room = omega (arith, h.room);
          placed = h.placed ∙ slot-slot q.cap q.head (length xs);
          items =
              sym (slots-head _ q.cap q.head 0 (length xs) h.head_in)
              ∙ slots-set q.element q.cap q.head 1 (length xs) q.head none (λ k lt le e.
                slot_ne q.cap q.head 0 k h.head_in le (omega (arith, h.room))
                  (sym e ∙ sym (slot-zero q.cap q.head h.head_in)))
              ∙ ap (drop 1) h.items;
        },
      )

  -- and on an empty queue nothing.
  pub pop_front_nil : {q : CircularQueue A} → Holding q [] → pop_front q ≡ (q, none)
  unfolding pop_front
  pop_front_nil {q} h =
      let e : q.head ≡ q.tail = sym (h.placed ∙ slot-zero q.cap q.head h.head_in) in
      rw (ap (λ k. q.head == k) (sym e) ∙ ==_refl q.head) refl
