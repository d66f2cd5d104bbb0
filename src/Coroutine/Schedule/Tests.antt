-- ===== src/Coroutine/Schedule/Tests.antt =====
-- coroutine/: two coroutines on a small shared stack.
use netlib.Common.{
  ℕ, ◌+◌, ◌-◌, ◌≡◌, refl, subst, none, some, true, false, List, [], ◌∷◌, arith, get_or, drop, ltb,
  zero, suc,
}
use netlib.Base.Slist.{Run, done, fault, lost, same}
use netlib.Base.Svector.{new_svector, default_cap}
use netlib.Base.Svector.Filled.{new_svector-Filled}
use netlib.Coroutine.Schedule.{
  Co, Schedule, running, create, alloc_co, resume, yield, finish, close,
}
use netlib.Coroutine.Schedule.Table.{IsScheduled, Sound, fits_status, one_if, is_some}
use netlib.Coroutine.Schedule.Steps.{Event, creates, resumes, yields, works, step, Spares}
use netlib.Coroutine.Schedule.End.{OrFull}
use netlib.Coroutine.Schedule.Fresh.{step-IsScheduled}
use netlib.Coroutine.Schedule.Stack.{steps, resume-yield}

abbrev result : Run (Schedule ℕ) → Schedule ℕ → Schedule ℕ
result (done s) d = s
result fault d = d
result lost d = d

-- The coroutine 0 runs, with the function 7, on a stack of four bytes.
abbrev first_co : Co ℕ
first_co = record { id = 0; status = running; stack = none; size = 0; cap = 0; function = 7 }

abbrev small : Schedule ℕ
small = record {
  cap = 2;
  nco = 1;
  pri_stack = false;
  pristacksize = 0;
  co = some (some first_co ∷ none ∷ []);
  curco = some 0;
  freeid = new_svector default_cap;
  stack = 1 ∷ 2 ∷ 3 ∷ 4 ∷ [];
}

small-IsScheduled : IsScheduled small (some first_co ∷ none ∷ []) []
unfolding new_svector
small-IsScheduled = record {
  table = refl;
  sized = refl;
  room = omega arith;
  positive = omega arith;
  free = new_svector-Filled default_cap;
  free_cap = cap_kept;
  balance = counts;
  states = sound;
  current = λ i e.
      let z : 0 ≡ i = cc in
      (first_co, subst (λ j. get_or (some first_co ∷ none ∷ []) j none ≡ some first_co) z refl);
}
  where
    cap_kept : (new_svector {A = ℕ} default_cap).cap ≡ default_cap
    cap_kept = refl

    counts :
        (i : ℕ)
        → 0 + one_if (is_some (get_or (some first_co ∷ none ∷ []) i none)) ≡ one_if (ltb i 1)
    counts zero = refl
    counts (suc zero) = refl
    counts (suc (suc i)) = ground arith

    sound :
        (i : ℕ) (c : Co ℕ)
        → get_or (some first_co ∷ none ∷ []) i none ≡ some c
        → Sound c i × (fits_status (same (some 0) (some i)) c.status ≡ true)
    sound zero c h =
        let eq : first_co ≡ c = cc in
        subst (λ x. Sound x 0 × (fits_status true x.status ≡ true)) eq ((refl, refl), refl)
    sound (suc zero) c h = cc
    sound (suc (suc i)) c h = cc

step-IsScheduled_example :
    OrFull
      (λ i. Spares {R = ℕ} i (creates 8))
      small
      (some first_co ∷ none ∷ [])
      []
      (step (creates 8) small)
step-IsScheduled_example =
    step-IsScheduled (creates 8) small (some first_co ∷ none ∷ []) [] small-IsScheduled tt

-- The other coroutine is made, overwrites the stack, and yields.
abbrev between : List (Event ℕ)
between = creates 8 ∷ resumes (some 1) ∷ works (9 ∷ 9 ∷ 9 ∷ 9 ∷ []) ∷ yields 0 ∷ []

abbrev yielded : Schedule ℕ
yielded = result (yield 2 small) small

abbrev returned_to : Schedule ℕ
returned_to = result (steps between yielded) small

yields_to : yield 2 small ≡ done yielded
unfolding yield new_svector
yields_to = refl

steps_to : steps between yielded ≡ done returned_to
unfolding yield steps create alloc_co resume new_svector
steps_to = refl

nobody_runs : returned_to.curco ≡ none
unfolding yield steps create alloc_co resume new_svector
nobody_runs = refl

resume-yield_example :
    (s₃ : Schedule ℕ) × (resume (some 0) returned_to ≡ done (true, s₃))
    × (s₃.curco ≡ some 0)
    × (drop (4 - 2) s₃.stack ≡ drop {A = ℕ} (4 - 2) (1 ∷ 2 ∷ 3 ∷ 4 ∷ []))
resume-yield_example =
    resume-yield 2 between small (some first_co ∷ none ∷ []) [] 0 yielded returned_to
      small-IsScheduled refl refl (omega arith) yields_to
      (tt, tt, λ s₁ p. (tt, (λ e. cc), λ s₂ q. (tt, tt, λ s₃ r. (omega arith, tt, λ s₄ u. tt))))
      steps_to nobody_runs

-- A coroutine that closes the scheduler it runs in uses a null pointer when its function returns.
close-finish : (s : Schedule ℕ) → finish (close s) ≡ fault
unfolding finish close
close-finish s = refl
