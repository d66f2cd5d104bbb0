-- ===== src/Coroutine/Schedule/Fresh.antt =====
-- Every call of the scheduler keeps its table in order (coroutine/coroutine.hpp), from `initEnv` on.
use netlib.Common.{
  ℕ, ◌+◌, ◌≡◌, ◌≢◌, refl, ap, ◌∙◌, Bool, Option, none, some, List, [], arith, if◌then◌else◌, get_or,
  memcpy, length-memcpy, length-replicate, replicate, ==_refl, ne_==, inl,
}
use netlib.Base.Slist.{Run, done, ◌>>=◌}
use netlib.Base.Svector.{default_cap}
use netlib.Base.Svector.Filled.{new_svector-Filled}
use netlib.Coroutine.Schedule.{
  Co, Schedule, create, create_at, new_co, new_schedule, init_env, default_coroutine,
}
use netlib.Coroutine.Schedule.Table.{IsScheduled, get_or-set, get_or-replicate, one_if, is_some}
use netlib.Coroutine.Schedule.Alloc.{alloc_co-Allocated}
use netlib.Coroutine.Schedule.Steps.{
  Event, creates, resumes, yields, returns, destroys, works, step, Sane, Spares, Next, creates-Next,
}
use netlib.Coroutine.Schedule.Switch.{resumes-Next, yields-Next}
use netlib.Coroutine.Schedule.End.{OrFull, destroys-Next, returns-Next}

module _ {R : Type 0} where
  works-Next :
      (bs : List ℕ) (s : Schedule R) (t : List (Option (Co R))) (ids : List ℕ)
      → IsScheduled s t ids
      → Next (λ i. Unit) s t (step (works bs) s)
  unfolding step
  works-Next bs s t ids w = record {
    after = record s { stack = memcpy s.stack 0 bs };
    table = t;
    ids = ids;
    runs = refl;
    valid = record {
      table = w.table;
      sized = w.sized;
      room = w.room;
      positive = w.positive;
      free = w.free;
      free_cap = w.free_cap;
      balance = w.balance;
      states = w.states;
      current = w.current;
    };
    stack_length = length-memcpy s.stack 0 bs;
    pri = refl;
    kept = λ i c h off p. h;
  }

  -- From a table in order, create, resume, yield, destroy, the return of a coroutine's function
  -- and its work on the stack never use a null pointer: they keep the table in order (every id
  -- below _nco is free, once, or names one coroutine that carries it; the current coroutine and
  -- only it is running; no dead one is kept), keep the length of the shared stack, and leave every
  -- coroutine that is neither the current one nor named by the call as it was. This needs a yield
  -- no deeper than the stack and a return only from a coroutine. The one exception: when already
  -- twice the first capacity of the svector, 200 ids, are free, releasing another one may write
  -- past its block.
  pub step-IsScheduled :
      (e : Event R) (s : Schedule R) (t : List (Option (Co R))) (ids : List ℕ)
      → IsScheduled s t ids
      → Sane e s
      → OrFull (λ i. Spares i e) s t ids (step e s)
  step-IsScheduled (creates r) s t ids w ok = inl (creates-Next r s t ids w)
  step-IsScheduled (resumes id) s t ids w ok = inl (resumes-Next id s t ids w)
  step-IsScheduled (yields d) s t ids w ok = inl (yields-Next d s t ids w ok)
  step-IsScheduled returns s t ids w (j, cur) = returns-Next j s t ids w cur
  step-IsScheduled (destroys id) s t ids w ok = destroys-Next id s t ids w
  step-IsScheduled (works bs) s t ids w ok = inl (works-Next bs s t ids w)

  -- From a table in order, create gives an id that named no coroutine, whether it takes a free
  -- one, the next one or enlarges the table; that id then names a ready coroutine with the given
  -- function, and every other id names what it did.
  create-vacant :
      (r : R) (s : Schedule R) (t : List (Option (Co R))) (ids : List ℕ)
      → IsScheduled s t ids
      → (id : ℕ) × (s' : Schedule R) × (t' : List (Option (Co R))) × (ids' : List ℕ) × (create r s
          ≡ done (some id, s'))
        × IsScheduled s' t' ids'
        × (get_or t id none ≡ none)
        × (get_or t' id none ≡ some (new_co r s id))
        × ((j : ℕ) → id ≢ j → get_or t' j none ≡ get_or t j none)
  unfolding create
  create-vacant r s t ids w =
      let a = alloc_co-Allocated r s t ids w in
      let c = new_co r s a.id in
      (
        a.id,
        _,
        _,
        a.ids,
        ap (λ c. create_at c r s) w.table
            ∙ ap
                (λ (m : Run (ℕ × Schedule R)).
                  m >>= λ p. let q : Run (Option ℕ × Schedule R) = done (some p.0, p.1) in q)
                a.runs,
        a.valid,
        a.vacant,
        get_or-set a.grown_table a.id a.id (some c) none a.inside
            ∙ ap (λ b. if b then some c else get_or a.grown_table a.id none) (==_refl a.id),
        λ j ne.
            get_or-set a.grown_table a.id j (some c) none a.inside
            ∙ ap (λ b. if b then some c else get_or a.grown_table j none) (ne_== a.id j ne)
            ∙ a.slots j,
      )

  -- The schedule that `initEnv` sets up.
  pub init_env-IsScheduled :
      (size : ℕ) (pri : Bool) (stack : List ℕ)
      → IsScheduled
          (init_env size pri (new_schedule {R = R} stack))
          (replicate default_coroutine none)
          []
  unfolding init_env new_schedule
  init_env-IsScheduled size pri stack = record {
    table = refl;
    sized = length-replicate {A = Option (Co R)} default_coroutine none;
    room = omega arith;
    positive = omega arith;
    free = new_svector-Filled default_cap;
    free_cap = refl;
    balance = λ i.
        ap (λ x. 0 + one_if (is_some x)) (get_or-replicate default_coroutine i none) ∙ ground arith;
    states = λ i c h. let n = get_or-replicate {A = Option (Co R)} default_coroutine i none in cc;
    current = λ i h. cc;
  }
