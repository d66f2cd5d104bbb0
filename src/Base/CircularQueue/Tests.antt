-- ===== src/Base/CircularQueue/Tests.antt =====
-- base/circular_queue.hpp at a queue that has wrapped round.
use netlib.Common.{ℕ, ◌+◌, ◌≡◌, refl, ◌⊎◌, true, false, none, some, [], ◌∷◌, arith, length}
use netlib.Base.CircularQueue.{CircularQueue, pop_front, push_back, clear_queue}
use netlib.Base.CircularQueue.Ops.{Holding, push_back-Holding, pop_front-Holding}
use netlib.Base.CircularQueue.Back.{clear_queue-Holding}

-- Three slots of four in use at most; two are, the last slot and the first.
abbrev wrapped : CircularQueue ℕ
wrapped = record { cap = 4; head = 3; tail = 1; element = some 8 ∷ none ∷ none ∷ some 7 ∷ [] }

wrapped-Holding : Holding wrapped (7 ∷ 8 ∷ [])
wrapped-Holding = record {
  head_in = omega arith;
  block = refl;
  room = omega arith;
  placed = refl;
  items = refl;
}

push_back-Holding_example :
    ((push_back 9 wrapped).1 ≡ true) × Holding (push_back 9 wrapped).0 (7 ∷ 8 ∷ 9 ∷ [])
    ⊎ ((push_back 9 wrapped ≡ (wrapped, false)) × (length {A = ℕ} (7 ∷ 8 ∷ []) + 1 ≡ 4))
push_back-Holding_example = push_back-Holding 9 wrapped-Holding

pop_front-Holding_example :
    ((pop_front wrapped).1 ≡ some (some 7)) × Holding (pop_front wrapped).0 (8 ∷ [])
pop_front-Holding_example = pop_front-Holding wrapped-Holding

clear_queue-Holding_example :
    (q : CircularQueue ℕ) × (clear_queue 3 wrapped ≡ some q) × Holding q []
clear_queue-Holding_example =
    clear_queue-Holding 3 wrapped (7 ∷ 8 ∷ []) wrapped-Holding (omega arith)
