-- ===== src/Coroutine/Wakeup/Tests.antt =====
-- coroutine/coroutine.hpp: coroutines of two threads that wake each other.
use netlib.Common.{ℕ, ◌≡◌, refl, Option, none, some, List, [], ◌∷◌, arith, ◌==◌, if◌then◌else◌}
use netlib.Base.Slist.{Node, Heap, done}
use netlib.Coroutine.Wakeup.{do_thr_resume}
use netlib.Coroutine.Wakeup.Sound.{Entries, map_of, waiting_of, Sound}
use netlib.Coroutine.Wakeup.Add.{spec_add, spec_adds}
use netlib.Coroutine.Wakeup.Take.{spec_waiting, spec_taken}
use netlib.Coroutine.Wakeup.Delivered.{spec_during, do_thr_resume-Delivered}

-- The thread 1 has the coroutines 7 and 8, in the nodes 0 and 1; the thread 2 has 9, in the node 2.
abbrev three_nodes : ℕ → Option (Node ℕ)
three_nodes a =
    if a == 0
    then some (record { val = 7; next = some 1 })
    else if a == 1
    then some (record { val = 8; next = none })
    else if a == 2
    then some (record { val = 9; next = none })
    else none

abbrev heap : Heap ℕ
heap = record { brk = 3; cell = three_nodes }

abbrev entries : Entries
entries =
    (1, record { count = 2; head = some 0; tail = some 1 }, (0, 7) ∷ (1, 8) ∷ [])
    ∷ (2, record { count = 1; head = some 2; tail = some 2 }, (2, 9) ∷ [])
    ∷ []

-- The coroutine 7 wakes itself again and a coroutine of the new thread 3.
abbrev during : ℕ → List (ℕ × ℕ)
during id = if id == 7 then (1, 7) ∷ (3, 5) ∷ [] else []

abbrev resumed_ids : List ℕ
resumed_ids = 7 ∷ 8 ∷ []

entries-Sound : Sound entries heap
entries-Sound = (
  record {
    heads = refl;
    tails = refl;
    counts = refl;
    links = (refl, (refl, tt));
    distinct = ((λ e. absurd (omega (arith, e)), tt), (tt, tt));
    below = (omega arith, (omega arith, tt));
  },
  (
    (
      ((λ e. absurd (omega (arith, e)), tt), ((λ e. absurd (omega (arith, e)), tt), tt)),
      ((λ e. absurd (omega (arith, e)), (λ e. absurd (omega (arith, e)), tt)), tt),
    ),
    tt,
  ),
  (
    record {
      heads = refl;
      tails = refl;
      counts = refl;
      links = (refl, tt);
      distinct = (tt, tt);
      below = (omega arith, tt);
    },
    tt,
    tt,
  ),
)

spec_waiting_first : spec_waiting 1 (waiting_of entries) ≡ resumed_ids
unfolding spec_waiting
spec_waiting_first = refl

spec_during_first :
    spec_during during resumed_ids (spec_taken 1 (waiting_of entries))
    ≡ (1, 7 ∷ []) ∷ (2, 9 ∷ []) ∷ (3, 5 ∷ []) ∷ []
unfolding spec_during spec_taken spec_adds spec_add
spec_during_first = refl

do_thr_resume-Delivered_example :
    (es' : Entries) × (h' : Heap ℕ) × (do_thr_resume 3 during none 1 (map_of entries) heap
      ≡ done (spec_waiting 1 (waiting_of entries), map_of es', h'))
    × (waiting_of es'
        ≡ spec_during during
            (spec_waiting 1 (waiting_of entries))
            (spec_taken 1 (waiting_of entries)))
    × Sound es' h'
unfolding spec_waiting
do_thr_resume-Delivered_example =
    do_thr_resume-Delivered 1 during entries heap 3 entries-Sound (omega arith)
