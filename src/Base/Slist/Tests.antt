-- ===== src/Base/Slist/Tests.antt =====
-- base/slist.hpp: lists at work.
use netlib.Common.{
  ℕ, ◌+◌, ◌≡◌, refl, inr, Option, none, some, List, [], ◌∷◌, arith, ◌==◌, length, true,
  if◌then◌else◌,
}
use netlib.Base.Slist.{Node, Heap, Slist, done, fault, push_back, clear, destroy, join, empty_list}
use netlib.Base.Slist.Linked.{IsLinked, Links, first}
use netlib.Base.Slist.Ops.{Pushed, push_back-Pushed}
use netlib.Base.Slist.Free.{Popped, pop_front-Popped, Freed, destroy-Freed, push_back-clear}
use netlib.Base.Slist.Join.{Joined, join-Joined, join-push_back_lost}
use netlib.Base.Slist.Fifo.{
  Call, push, pop, peek, count, test, nothing, value, number, flag, run_calls, spec_calls,
  run_calls-eq-spec,
}

-- The list 7, 8 in the nodes 0 and 1, and the list 9 in the node 2.
abbrev two_nodes : ℕ → Option (Node ℕ)
two_nodes a =
    if a == 0
    then some (record { val = 7; next = some 1 })
    else if a == 1
    then some (record { val = 8; next = none })
    else if a == 2
    then some (record { val = 9; next = none })
    else none

abbrev heap : Heap ℕ
heap = record { brk = 3; cell = two_nodes }

abbrev seven_eight : Slist
seven_eight = record { count = 2; head = some 0; tail = some 1 }

abbrev nine : Slist
nine = record { count = 1; head = some 2; tail = some 2 }

abbrev nodes : List (ℕ × ℕ)
nodes = (0, 7) ∷ (1, 8) ∷ []

seven_eight-IsLinked : IsLinked seven_eight heap nodes
seven_eight-IsLinked = record {
  heads = refl;
  tails = refl;
  counts = refl;
  links = (refl, (refl, tt));
  distinct = ((λ e. absurd (omega (arith, e)), tt), (tt, tt));
  below = (omega arith, (omega arith, tt));
}

nine-IsLinked : IsLinked nine heap ((2, 9) ∷ [])
nine-IsLinked = record {
  heads = refl;
  tails = refl;
  counts = refl;
  links = (refl, tt);
  distinct = (tt, tt);
  below = (omega arith, tt);
}

empty-IsLinked : IsLinked empty_list heap []
empty-IsLinked = record {
  heads = refl;
  tails = refl;
  counts = refl;
  links = tt;
  distinct = tt;
  below = tt;
}

push_back-Pushed_example : Pushed 5 seven_eight heap nodes
push_back-Pushed_example = push_back-Pushed 5 seven_eight heap nodes seven_eight-IsLinked

pop_front-Popped_example : Popped seven_eight heap 0 7 ((1, 8) ∷ [])
pop_front-Popped_example = pop_front-Popped seven_eight heap 0 7 ((1, 8) ∷ []) seven_eight-IsLinked

destroy-Freed_example :
    (h' : Heap ℕ) × (destroy 3 seven_eight heap ≡ done (empty_list, h')) × Freed nodes heap h'
destroy-Freed_example = destroy-Freed seven_eight heap nodes 3 seven_eight-IsLinked (omega arith)

push_back-clear_example :
    (l' : Slist) × (h' : Heap ℕ) × (clear 3 seven_eight heap ≡ done (l', h'))
    × (l'.count ≡ 0)
    × Freed nodes heap h'
    × (push_back 5 l' h' ≡ fault)
push_back-clear_example =
    push_back-clear seven_eight heap 0 7 ((1, 8) ∷ []) 3 5 seven_eight-IsLinked (omega arith)

join-Joined_example : Joined seven_eight nine heap nodes ((2, 9) ∷ [])
join-Joined_example =
    join-Joined seven_eight nine heap nodes ((2, 9) ∷ []) seven_eight-IsLinked nine-IsLinked
      ((λ e. absurd (omega (arith, e)), (λ e. absurd (omega (arith, e)), tt)), tt) (inr (λ e. cc))

join-push_back_lost_example :
    (l₁ l₂ : Slist) × (h₁ h₂ : Heap ℕ) × (join seven_eight empty_list heap
      ≡ done (l₁, empty_list, h₁))
    × (push_back 5 l₁ h₁ ≡ done (l₂, h₂))
    × (l₂.count ≡ length nodes + 1)
    × (l₂.head ≡ first nodes none)
    × Links h₂.cell nodes none
join-push_back_lost_example =
    join-push_back_lost seven_eight empty_list heap 0 7 ((1, 8) ∷ []) 5 seven_eight-IsLinked
      empty-IsLinked

abbrev calls : List (Call ℕ)
calls = pop ∷ push 5 ∷ peek ∷ pop ∷ peek ∷ pop ∷ test ∷ push 6 ∷ peek ∷ count ∷ []

run_calls-eq-spec_example : run_calls calls seven_eight heap ≡ spec_calls calls (7 ∷ 8 ∷ [])
run_calls-eq-spec_example = run_calls-eq-spec calls seven_eight heap nodes seven_eight-IsLinked

spec_runs :
    spec_calls calls (7 ∷ 8 ∷ [])
    ≡ done (
        nothing
        ∷ nothing
        ∷ value 8
        ∷ nothing
        ∷ value 5
        ∷ nothing
        ∷ flag true
        ∷ nothing
        ∷ value 6
        ∷ number 1
        ∷ [])
unfolding spec_calls
spec_runs = refl
