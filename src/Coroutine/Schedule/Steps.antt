-- ===== src/Coroutine/Schedule/Steps.antt =====
-- The calls that a thread and its coroutines make, one after the other (coroutine/coroutine.hpp).
use netlib.Common.{
  ℕ, ◌≤◌, ◌<◌, ◌≡◌, ◌≢◌, refl, ap, subst, ◌∙◌, Option, none, some, List, if◌then◌else◌, get_or, set,
  length, memcpy, ne_==,
}
use netlib.Base.Slist.{Run, done, ◌>>=◌}
use netlib.Coroutine.Schedule.{
  Co, Schedule, create, resume, yield, finish, destroy, new_co, create_at,
}
use netlib.Coroutine.Schedule.Table.{IsScheduled, get_or-set}
use netlib.Coroutine.Schedule.Alloc.{alloc_co-Allocated}

-- `yields` says how deep the stack of the coroutine is, `returns` is the end of its function, and
-- `works` is what it writes to the stack while it runs.
pub data Event (R : Type 0) : Type 0 where
  creates : R → Event R
  resumes : Option ℕ → Event R
  yields : ℕ → Event R
  returns : Event R
  destroys : Option ℕ → Event R
  works : List ℕ → Event R

module _ {R : Type 0} where
  unfoldable pub step : Event R → Schedule R → Run (Schedule R)
  step (creates r) s = do (id, s') ← create r s; done s'
  step (resumes id) s = do (b, s') ← resume id s; done s'
  step (yields d) s = yield d s
  step returns s = finish s
  step (destroys id) s = destroy id s
  step (works bs) s = done (record s { stack = memcpy s.stack 0 bs })

  -- What the code needs of its callers: a stack no larger than the shared one, and that only a
  -- coroutine returns.
  abbrev pub Sane : Event R → Schedule R → Type 0
  Sane (creates r) s = Unit
  Sane (resumes id) s = Unit
  Sane (yields d) s = d ≤ length s.stack
  Sane returns s = (j : ℕ) × (s.curco ≡ some j)
  Sane (destroys id) s = Unit
  Sane (works bs) s = Unit

  -- The event does not name this coroutine.
  abbrev pub Spares : ℕ → Event R → Type 0
  Spares i (creates r) = Unit
  Spares i (resumes id) = id ≢ some i
  Spares i (yields d) = Unit
  Spares i returns = Unit
  Spares i (destroys id) = id ≢ some i
  Spares i (works bs) = Unit

  -- The call succeeds and leaves the table in order, with every other coroutine as it was.
  pub record Next (P : ℕ → Type 0) (s : Schedule R) (t : List (Option (Co R)))
      (m : Run (Schedule R)) : Type 0 where
    pub after : Schedule R
    pub table : List (Option (Co R))
    pub ids : List ℕ
    pub runs : m ≡ done after
    pub valid : IsScheduled after table ids
    pub stack_length : length after.stack ≡ length s.stack
    pub pri : after.pri_stack ≡ s.pri_stack
    pub kept :
        (i : ℕ) (c : Co R)
        → get_or t i none ≡ some c
        → s.curco ≢ some i
        → P i
        → get_or table i none ≡ some c

  pub stays :
      (P : ℕ → Type 0) {s : Schedule R} {t : List (Option (Co R))} {ids : List ℕ}
      → IsScheduled s t ids
      → {m : Run (Schedule R)} → m ≡ done s
      → Next P s t m
  stays P {s} {t} {ids} w e = record {
    after = s;
    table = t;
    ids = ids;
    runs = e;
    valid = w;
    stack_length = refl;
    pri = refl;
    kept = λ i c h cur p. h;
  }

  -- The slot of another coroutine is not written.
  pub kept_slot :
      (t : List (Option (Co R))) (id i : ℕ) (x : Option (Co R)) (c : Co R)
      → id < length t
      → id ≢ i
      → get_or t i none ≡ some c
      → get_or (set t id x) i none ≡ some c
  kept_slot t id i x c lt ne h =
      get_or-set t id i x none lt ∙ ap (λ b. if b then x else get_or t i none) (ne_== id i ne) ∙ h

  pub creates-Next :
      (r : R) (s : Schedule R) (t : List (Option (Co R))) (ids : List ℕ)
      → IsScheduled s t ids
      → Next (λ i. Unit) s t (step (creates r) s)
  unfolding step create
  creates-Next r s t ids w =
      let a = alloc_co-Allocated r s t ids w in
      record {
        after = _;
        table = _;
        ids = a.ids;
        runs =
            ap (λ c. create_at c r s >>= λ (p : Option ℕ × Schedule R). done p.1) w.table
            ∙ ap
                (λ (m : Run (ℕ × Schedule R)).
                  (m >>= λ p. let q : Run (Option ℕ × Schedule R) = done (some p.0, p.1) in q)
                  >>= λ p. done p.1)
                a.runs;
        valid = a.valid;
        stack_length = refl;
        pri = refl;
        kept = λ i c h cur p.
            kept_slot a.grown_table a.id i (some (new_co r s a.id)) c a.inside
              (λ e. let v = a.vacant in let v' = subst (λ j. get_or t j none ≡ none) e v in cc)
              (a.slots i ∙ h);
      }
