-- ===== src/Coroutine/Schedule/End.antt =====
-- A coroutine ends or is destroyed, in a table in order
-- (coroutine/co_linux_impl.hpp).
use netlib.Common.{
  ℕ, ◌*◌, ◌≤◌, ◌<◌, ◌≡◌, ◌≢◌, refl, sym, ap, subst, ◌∙◌, Option, none, some, false, List, [], ◌∷◌,
  ◌++◌, arith, ltb, if◌then◌else◌, get_or, set, length, ==_refl, ne_==, Bool-cases, inl, inr, ◌⊎◌,
  length-set,
}
use netlib.Base.Slist.{Run, done, fault, same, ◌>>=◌}
use netlib.Base.Svector.{Svector, svector_push_back, default_cap}
use netlib.Base.Svector.Filled.{svector_push_back-Filled}
use netlib.Coroutine.Schedule.{
  dead, Co, Schedule, finish, destroy, put, slot_in, resumed, resumed_slot, drop_co, dead_slot,
  finish_at, destroy_at, destroy_slot, push_free,
}
use netlib.Coroutine.Schedule.Table.{IsScheduled, live_slot, get_or-set, set-set}
use netlib.Coroutine.Schedule.Drop.{put-runs, drop_co-runs, drop-IsScheduled}
use netlib.Coroutine.Schedule.Steps.{returns, destroys, step, Next, stays, kept_slot}
use netlib.Coroutine.Schedule.Switch.{slot_found}

module _ {R : Type 0} where
  -- Either the call goes well, or `_freeid` overflows.
  abbrev pub OrFull :
      (ℕ → Type 0) → Schedule R → List (Option (Co R)) → List ℕ → Run (Schedule R) → Type 0
  OrFull P s t ids m = Next P s t m ⊎ ((m ≡ fault) × (default_cap * 2 ≤ length ids))

  put_full :
      (s : Schedule R) (t : List (Option (Co R))) (id : ℕ)
      → s.co ≡ some t
      → id < length t
      → svector_push_back id s.freeid ≡ none
      → drop_co id s ≡ fault
  put_full s t id e lt p =
      ap (λ m. m >>= push_free id) (put-runs s t id none e lt)
      ∙ ap
          (λ (x : Option (Svector ℕ)). elim x [
            | none ↦ fault
            | some f ↦ done (record s { co = some (set t id none); freeid = f })
          ])
          p

  module _ (s : Schedule R) (t : List (Option (Co R))) (ids : List ℕ)
      (w : IsScheduled s t ids) where
    destroyed :
        (id : ℕ) (c : Co R)
        → same s.curco (some id) ≡ false
        → get_or t id none ≡ some c
        → OrFull (λ i. some id ≢ some i) s t ids (drop_co id s)
    destroyed id c off h =
        let lt = (live_slot w id c h).1 in
        elim (svector_push_back-Filled id s.freeid ids w.free) [
          | inl (v, p, fv, cv, _) ↦ inl (record {
            after = record s { co = some (set t id none); freeid = v };
            table = set t id none;
            ids = ids ++ id ∷ [];
            runs = drop_co-runs s t id v w.table lt p;
            valid = drop-IsScheduled w id c v s.curco h fv cv off (λ j ne. refl) (λ j e. e);
            stack_length = refl;
            pri = refl;
            kept = λ i d g cur q. kept_slot t id i none d lt (λ e. q (ap some e)) g;
          })
          | inr (p, full) ↦ inr (put_full s t id w.table lt p, omega (arith, full, w.free_cap))
        ]

    destroys-slot :
        (id : ℕ) (x : Option (Co R))
        → same s.curco (some id) ≡ false
        → get_or t id none ≡ x
        → OrFull (λ i. some id ≢ some i) s t ids (destroy_slot x id s)
    destroys-slot id none off h = inl (stays _ w refl)
    destroys-slot id (some c) off h = destroyed id c off h

    destroys-cases : (id : Option ℕ) → OrFull (λ i. id ≢ some i) s t ids (destroy_at id s)
    destroys-cases none = inl (stays _ w refl)
    destroys-cases (some id) = elim (Bool-cases (same s.curco (some id))) [
      | inl on ↦ inl (stays _ w (ap (λ b. if b then done s else rest) on))
      | inr off ↦ elim (Bool-cases (ltb id s.cap)) [
        | inl inside ↦
            subst (λ m. OrFull (λ i. some id ≢ some i) s t ids m)
              (sym (
                ap (λ b. if b then done s else rest) off
                ∙ ap (λ b. if b then destroy_slot (slot_in s.co id) id s else done s) inside
                ∙ ap (λ x. destroy_slot x id s)
                    (slot_found s t id (get_or t id none) w.table refl)))
              (destroys-slot id (get_or t id none) off refl)
        | inr out ↦ inl (
            stays _ w (
              ap (λ b. if b then done s else rest) off
              ∙ ap (λ b. if b then destroy_slot (slot_in s.co id) id s else done s) out))
      ]
    ]
      where
        rest : Run (Schedule R)
        rest = if ltb id s.cap then destroy_slot (slot_in s.co id) id s else done s

    returned :
        (id : ℕ) (c : Co R)
        → s.curco ≡ some id
        → get_or t id none ≡ some c
        → OrFull (λ i. Unit) s t ids (put id (some (record c { status = dead })) s >>= resumed id)
    unfolding resumed
    returned id c cur h =
        let lt = (live_slot w id c h).1 in
        let d : Co R = record c { status = dead } in
        let s₁ : Schedule R = record s { co = some (set t id (some d)) } in
        let lt₁ : id < length (set t id (some d)) = omega (arith, lt, length-set t id (some d)) in
        let reach : (put id (some d) s >>= resumed id)
            ≡ (drop_co id s₁ >>= λ (s' : Schedule R). done (record s' { curco = none })) =
          ap (λ m. m >>= resumed id) (put-runs s t id (some d) w.table lt)
          ∙ ap (λ x. resumed_slot x id s₁)
              (get_or-set t id id (some d) none lt
                ∙ ap (λ b. if b then some d else get_or t id none) (==_refl id)) in
        elim (svector_push_back-Filled id s.freeid ids w.free) [
          | inl (v, p, fv, cv, _) ↦ inl (record {
            after = record s { co = some (set t id none); freeid = v; curco = none };
            table = set t id none;
            ids = ids ++ id ∷ [];
            runs =
                reach
                ∙ ap (λ m. m >>= λ (s' : Schedule R). done (record s' { curco = none }))
                    (drop_co-runs s₁ (set t id (some d)) id v refl lt₁ p)
                ∙ ap (λ u. done (record s { co = some u; freeid = v; curco = none }))
                    (set-set t id (some d) none);
            valid =
                drop-IsScheduled w id c v none h fv cv refl
                  (λ j ne. sym (ap (λ q. same q (some j)) cur ∙ ne_== id j ne)) (λ j e. cc);
            stack_length = refl;
            pri = refl;
            kept = λ i k g off q. kept_slot t id i none k lt (λ e. off (cur ∙ ap some e)) g;
          })
          | inr (p, full) ↦ inr (
            reach
                ∙ ap (λ m. m >>= λ (s' : Schedule R). done (record s' { curco = none }))
                    (put_full s₁ (set t id (some d)) id refl lt₁ p),
            omega (arith, full, w.free_cap),
          )
        ]

  pub destroys-Next :
      (id : Option ℕ) (s : Schedule R) (t : List (Option (Co R))) (ids : List ℕ)
      → IsScheduled s t ids
      → OrFull (λ i. id ≢ some i) s t ids (step (destroys id) s)
  unfolding step destroy
  destroys-Next id s t ids w = destroys-cases s t ids w id

  pub returns-Next :
      (j : ℕ) (s : Schedule R) (t : List (Option (Co R))) (ids : List ℕ)
      → IsScheduled s t ids
      → s.curco ≡ some j
      → OrFull (λ i. Unit) s t ids (step returns s)
  unfolding step finish
  returns-Next j s t ids w cur =
      let (c, h) = w.current j cur in
      subst (λ m. OrFull (λ i. Unit) s t ids m)
        (sym (
          ap (λ x. finish_at x s) cur
          ∙ ap (λ x. dead_slot x j s >>= resumed j) (slot_found s t j (some c) w.table h)))
        (returned s t ids w j c cur h)
