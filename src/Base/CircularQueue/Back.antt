-- ===== src/Base/CircularQueue/Back.antt =====
-- `pop_back` and `clear` of `circular_queue` (base/circular_queue.hpp).
use netlib.Common.{
  ℕ, zero, suc, ◌+◌, ◌-◌, ◌%◌, ◌<◌, ◌≡◌, refl, sym, ap, ap₂, ◌∙◌, false, Option, none, some, List,
  [], ◌∷◌, ◌++◌, arith, ◌==◌, ne_==, ==_refl, get_or, length, length-set, map, drop,
}
use netlib.Base.CircularQueue.{CircularQueue, pop_front, pop_back, clear_queue}
use netlib.Base.CircularQueue.Slots.{
  slot, slots, slots-snoc, slots-set, slot-zero, slot_before, slot_ne,
}
use netlib.Base.CircularQueue.Ops.{
  Holding, used, length-map, map-snoc, length-snoc, pop_front-Holding,
}

-- Two sequences with a last element each.
snoc_parts :
    {B : Type 0} (xs ys : List B) (x y : B)
    → length xs ≡ length ys
    → xs ++ (x ∷ []) ≡ ys ++ (y ∷ [])
    → (xs ≡ ys) × (x ≡ y)
snoc_parts [] [] x y l e = (refl, ap (λ zs. get_or zs 0 x) e)
snoc_parts [] (z ∷ ys) x y l e = absurd (omega arith)
snoc_parts (z ∷ xs) [] x y l e = absurd (omega arith)
snoc_parts (z ∷ xs) (w ∷ ys) x y l e =
    let (same, last) = snoc_parts xs ys x y (omega arith) (ap (drop 1) e) in
    (ap₂ ◌∷◌ (ap (λ zs. get_or zs 0 z) e) same, last)

module _ {A : Type 0} where
  length-slots : (e : List (Option A)) (c h i n : ℕ) → length (slots e c h i n) ≡ n
  length-slots e c h i zero = refl
  length-slots e c h i (suc n) = ap suc (length-slots e c h (suc i) n)

  -- The places of a sequence that ends with `x`.
  snoc-items :
      {q : CircularQueue A} (xs : List A) (x : A)
      → Holding q (xs ++ (x ∷ []))
      → (slots q.element q.cap q.head 0 (length xs) ≡ map some xs)
        × (get_or q.element (slot q.cap q.head (length xs)) none ≡ some x)
  snoc-items {q} xs x h =
      let front = slots q.element q.cap q.head 0 (length xs) in
      let e : front ++ (get_or q.element (slot q.cap q.head (length xs)) none ∷ [])
          ≡ map some xs ++ (some x ∷ []) =
        ap (λ k. front ++ (get_or q.element (slot q.cap q.head k) none ∷ [])) {x = length xs}
          {y = 0 + length xs} (omega arith)
        ∙ sym (slots-snoc q.element q.cap q.head 0 (length xs))
        ∙ ap (slots q.element q.cap q.head 0) (sym (length-snoc xs x))
        ∙ h.items
        ∙ map-snoc xs x in
      snoc_parts front (map some xs) _ (some x)
        (length-slots _ _ _ _ (length xs) ∙ sym (length-map xs)) e

  -- On a queue that holds a sequence with a last element, pop_back yields that element and the
  -- queue holds the sequence before it.
  pub pop_back-Holding :
      {q : CircularQueue A} {x : A} {xs : List A}
      → Holding q (xs ++ (x ∷ []))
      → ((pop_back q).1 ≡ some (some x)) × Holding (pop_back q).0 xs
  unfolding pop_back
  pop_back-Holding {q} {x} {xs} h =
      let len = length-snoc xs x in
      let (items, last) = snoc-items xs x h in
      let at : (q.cap + q.tail - 1) % q.cap ≡ slot q.cap q.head (length xs) =
        ap (λ k. (q.cap + k - 1) % q.cap) (h.placed ∙ ap (slot q.cap q.head) len)
        ∙ slot_before q.cap q.head (length xs) h.head_in (omega (arith, len, h.room)) in
      let some_there : (q.head == q.tail) ≡ false =
        ne_== _ _
          (λ e. used h 0 (omega (arith, len)) (sym e ∙ sym (slot-zero q.cap q.head h.head_in))) in
      rw (some_there, at)
        (
          ap some last,
          record {
            head_in = h.head_in;
            block = length-set q.element (slot q.cap q.head (length xs)) none ∙ h.block;
            room = omega (arith, h.room, len);
            placed = refl;
            items =
                slots-set q.element q.cap q.head 0 (length xs) _ none (λ k lt le.
                  slot_ne q.cap q.head k (length xs) h.head_in (omega arith)
                    (omega (arith, h.room, len)))
                ∙ items;
          },
        )

  -- On a queue that holds a sequence, the loop of clear, with fuel above its length, ends, and the
  -- queue is empty.
  pub clear_queue-Holding :
      (fuel : ℕ) (q : CircularQueue A) (xs : List A)
      → Holding q xs
      → length xs < fuel
      → (q' : CircularQueue A) × (clear_queue fuel q ≡ some q') × Holding q' []
  unfolding clear_queue
  clear_queue-Holding zero q xs h lt = absurd (omega arith)
  clear_queue-Holding (suc fuel) q [] h lt =
      let e : q.head ≡ q.tail = sym (h.placed ∙ slot-zero q.cap q.head h.head_in) in
      (q, rw (ap (λ k. q.head == k) (sym e) ∙ ==_refl q.head) refl, h)
  clear_queue-Holding (suc fuel) q (x ∷ xs) h lt =
      let (q', e, done) =
        clear_queue-Holding fuel (pop_front q).0 xs (pop_front-Holding h).1 (omega arith) in
      let some_there : (q.head == q.tail) ≡ false =
        ne_== _ _ (λ k. used h 0 (omega arith) (sym k ∙ sym (slot-zero q.cap q.head h.head_in))) in
      (q', rw (some_there, e) refl, done)
