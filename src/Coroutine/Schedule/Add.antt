-- ===== src/Coroutine/Schedule/Add.antt =====
-- A new coroutine enters the table (`_alloc_co_` of coroutine/coroutine.hpp).
use netlib.Common.{
  ℕ, ◌+◌, ◌≤◌, ◌<◌, ◌≡◌, refl, sym, ap, subst, ◌∙◌, Option, none, some, true, false, List, arith,
  ◌==◌, ltb, if◌then◌else◌, get_or, set, length, length-set, ==_iff, Bool-cases, inl, inr, ◌⊎◌,
}
use netlib.Base.Slist.{same}
use netlib.Base.Svector.{Svector}
use netlib.Base.Svector.Filled.{Filled}
use netlib.Coroutine.Schedule.{ready, Co, Schedule}
use netlib.Coroutine.Schedule.Table.{
  IsScheduled, Sound, count, one_if, is_some, fits_status, get_or-set,
}

same-some : (p : Option ℕ) (j : ℕ) → same p (some j) ≡ true → p ≡ some j
same-some none j h = cc
same-some (some i) j h = ap some ((==_iff i j).0 h)

module _ {R : Type 0} where
  -- The place of the new coroutine, and what the fields of the schedule become.
  pub record Room (s : Schedule R) (t : List (Option (Co R))) (ids : List ℕ) (y cap nco : ℕ)
      (v : Svector ℕ) (t' : List (Option (Co R))) (ids' : List ℕ) : Type 0 where
    pub sized : length t' ≡ cap
    pub room : nco ≤ cap
    pub positive : 0 < cap
    pub free : Filled v ids'
    pub free_cap : v.cap ≡ s.freeid.cap
    pub slots : (j : ℕ) → get_or t' j none ≡ get_or t j none
    pub vacant : get_or t y none ≡ none
    pub inside : y < length t'
    pub shift :
        (j : ℕ)
        → one_if (ltb j nco) + count j ids ≡ one_if (ltb j s.nco) + count j ids' + one_if (y == j)

  abbrev pub added : Schedule R → ℕ → ℕ → ℕ → Svector ℕ → List (Option (Co R)) → Co R → Schedule R
  added s y cap nco v t' c = record s {
    cap = cap;
    nco = nco;
    freeid = v;
    co = some (set t' y (some c));
  }

  pub add-IsScheduled :
      {s : Schedule R} {t : List (Option (Co R))} {ids : List ℕ} (w : IsScheduled s t ids)
      {y cap nco : ℕ} {v : Svector ℕ} {t' : List (Option (Co R))} {ids' : List ℕ}
      (m : Room s t ids y cap nco v t' ids') (c : Co R)
      → Sound c y
      → c.status ≡ ready
      → IsScheduled (added s y cap nco v t' c) (set t' y (some c)) ids'
  add-IsScheduled {s} {t} {ids} w {y} {cap} {nco} {v} {t'} {ids'} m c own status = record {
    table = refl;
    sized = length-set t' y (some c) ∙ m.sized;
    room = m.room;
    positive = m.positive;
    free = m.free;
    free_cap = m.free_cap ∙ w.free_cap;
    balance = λ i. elim (Bool-cases (y == i)) [
      | inl q ↦
          let none_there : get_or t i none ≡ none =
            subst (λ j. get_or t j none ≡ none) ((==_iff y i).0 q) m.vacant in
          let b =
            subst (λ x. count i ids + one_if (is_some x) ≡ one_if (ltb i s.nco)) none_there
              (w.balance i) in
          let k =
            subst
              (λ b.
                one_if (ltb i nco) + count i ids ≡ one_if (ltb i s.nco) + count i ids' + one_if b)
              q (m.shift i) in
          rw (get_or-set t' y i (some c) none m.inside, q) (omega (arith, b, k))
      | inr q ↦
          let b = w.balance i in
          let k =
            subst
              (λ b.
                one_if (ltb i nco) + count i ids ≡ one_if (ltb i s.nco) + count i ids' + one_if b)
              q (m.shift i) in
          rw (get_or-set t' y i (some c) none m.inside, q, m.slots i) (omega (arith, b, k))
    ];
    states = λ i d h. elim (Bool-cases (y == i)) [
      | inl q ↦
          let hit : some c ≡ some d =
            sym (
              get_or-set t' y i (some c) none m.inside
              ∙ ap (λ b. if b then some c else get_or t' i none) q)
            ∙ h in
          let eq : y ≡ i = (==_iff y i).0 q in
          let same_co : c ≡ d = cc in
          subst (λ x. Sound x i × (fits_status (same s.curco (some i)) x.status ≡ true)) same_co
            (
              (own.0 ∙ eq, own.1),
              subst (λ j. fits_status (same s.curco (some j)) c.status ≡ true) eq
                  (idle (Bool-cases (same s.curco (some y)))),
            )
      | inr q ↦
          let miss : get_or t i none ≡ some d =
            sym (m.slots i)
            ∙ sym (
                get_or-set t' y i (some c) none m.inside
                ∙ ap (λ b. if b then some c else get_or t' i none) q)
            ∙ h in
          w.states i d miss
    ];
    current = λ i q.
        let (d, h) = w.current i q in
        elim (Bool-cases (y == i)) [
          | inl k ↦
              let none_there : get_or t i none ≡ none =
                subst (λ j. get_or t j none ≡ none) ((==_iff y i).0 k) m.vacant in
              cc
          | inr k ↦ (
            d,
            get_or-set t' y i (some c) none m.inside
                ∙ ap (λ b. if b then some c else get_or t' i none) k
                ∙ m.slots i
                ∙ h,
          )
        ];
  }
    where
      idle :
          (same s.curco (some y) ≡ true) ⊎ (same s.curco (some y) ≡ false)
          → fits_status (same s.curco (some y)) c.status ≡ true
      idle (inl on) =
          let (d, h) = w.current y (same-some s.curco y on) in let none_there = m.vacant in cc
      idle (inr off) = rw (off, status) refl
