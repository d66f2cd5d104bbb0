-- ===== src/Coroutine/Schedule/Drop.antt =====
-- A coroutine leaves the table, and its id becomes free (coroutine/co_linux_impl.hpp).
use netlib.Common.{
  ℕ, ◌<◌, ◌≡◌, ◌≢◌, refl, sym, ap, subst, ◌∙◌, Option, none, some, true, false, List, [], ◌∷◌, ◌++◌,
  arith, ◌==◌, ltb, if◌then◌else◌, get_or, set, length, length-set, ==_refl, ==_iff, ==_ne,
  Bool-cases, lt→ltb, inl, inr,
}
use netlib.Base.Slist.{done, fault, same, ◌>>=◌}
use netlib.Base.Svector.{Svector, svector_push_back}
use netlib.Base.Svector.Filled.{Filled}
use netlib.Coroutine.Schedule.{Co, Schedule, push_free, drop_co, put, put_at}
use netlib.Coroutine.Schedule.Table.{
  IsScheduled, count, fits_status, count-append, get_or-set, live_slot,
}

module _ {R : Type 0} where
  -- A write to a slot of the table.
  pub put-runs :
      (s : Schedule R) (t : List (Option (Co R))) (id : ℕ) (x : Option (Co R))
      → s.co ≡ some t
      → id < length t
      → put id x s ≡ done (record s { co = some (set t id x) })
  put-runs s t id x e lt =
      ap (λ q. put_at q id x s) e
      ∙ ap (λ b. if b then done (record s { co = some (set t id x) }) else fault)
          (lt→ltb id (length t) lt)

  pub drop_co-runs :
      (s : Schedule R) (t : List (Option (Co R))) (id : ℕ) (v : Svector ℕ)
      → s.co ≡ some t
      → id < length t
      → svector_push_back id s.freeid ≡ some v
      → drop_co id s ≡ done (record s { co = some (set t id none); freeid = v })
  drop_co-runs s t id v e lt p =
      ap (λ m. m >>= push_free id) (put-runs s t id none e lt)
      ∙ ap
          (λ x. elim x [
            | none ↦ fault
            | some f ↦ done (record s { co = some (set t id none); freeid = f })
          ])
          p

  pub drop-IsScheduled :
      {s : Schedule R} {t : List (Option (Co R))} {ids : List ℕ} (w : IsScheduled s t ids) (id : ℕ)
      (c : Co R) (v : Svector ℕ) (cur : Option ℕ)
      → get_or t id none ≡ some c
      → Filled v (ids ++ id ∷ [])
      → v.cap ≡ s.freeid.cap
      → same cur (some id) ≡ false
      → ((j : ℕ) → id ≢ j → same cur (some j) ≡ same s.curco (some j))
      → ((j : ℕ) → cur ≡ some j → s.curco ≡ some j)
      → IsScheduled
          (record s { co = some (set t id none); freeid = v; curco = cur })
          (set t id none)
          (ids ++ id ∷ [])
  drop-IsScheduled {s} {t} {ids} w id c v cur e fv cv off others only =
      let live = live_slot w id c e in
      record {
        table = refl;
        sized = length-set t id none ∙ w.sized;
        room = w.room;
        positive = w.positive;
        free = fv;
        free_cap = cv ∙ w.free_cap;
        balance = λ i. elim (Bool-cases (id == i)) [
          | inl q ↦
              let eq : id ≡ i = (==_iff id i).0 q in
              let zero_free : count i ids ≡ 0 = subst (λ j. count j ids ≡ 0) eq live.2 in
              let below : ltb i s.nco ≡ true = lt→ltb i s.nco (omega (arith, eq, live.0)) in
              rw (get_or-set t id i none none live.1, count-append i ids (id ∷ []), q, below)
                (omega (arith, zero_free))
          | inr q ↦
              rw (get_or-set t id i none none live.1, count-append i ids (id ∷ []), q)
                (let b = w.balance i in omega (arith, b))
        ];
        states = λ i d h. elim (Bool-cases (id == i)) [
          | inl q ↦
              let hit : none ≡ some d =
                sym (
                  get_or-set t id i none none live.1
                  ∙ ap (λ b. if b then none else get_or t i none) q)
                ∙ h in
              cc
          | inr q ↦
              let miss : get_or t i none ≡ some d =
                sym (
                  get_or-set t id i none none live.1
                  ∙ ap (λ b. if b then none else get_or t i none) q)
                ∙ h in
              let old = w.states i d miss in
              (old.0, ap (λ b. fits_status b d.status) (others i (==_ne q)) ∙ old.1)
        ];
        current = λ i q. elim (Bool-cases (id == i)) [
          | inl k ↦
              let eq : id ≡ i = (==_iff id i).0 k in
              let on : same cur (some id) ≡ true =
                ap (λ x. same x (some id)) (q ∙ ap some (sym eq)) ∙ ==_refl id in
              cc
          | inr k ↦
              let (d, h) = w.current i (only i q) in
              (
                d,
                get_or-set t id i none none live.1
                    ∙ ap (λ b. if b then none else get_or t i none) k
                    ∙ h,
              )
        ];
      }
