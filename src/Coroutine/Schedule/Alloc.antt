-- ===== src/Coroutine/Schedule/Alloc.antt =====
-- `_alloc_co_` of coroutine/coroutine.hpp, on its three branches.
use netlib.Common.{
  ℕ, ◌+◌, ◌*◌, ◌<◌, ◌≡◌, refl, ap, subst, ◌∙◌, Bool, Option, none, some, true, false, List, [], ◌∷◌,
  ◌++◌, arith, ◌==◌, ltb, leb, not, if◌then◌else◌, get_or, set, length, length-append,
  length-replicate, ==_refl, Bool-cases, inl, inr, replicate,
}
use netlib.Base.Slist.{done, ◌>>=◌}
use netlib.Base.Svector.{Svector, svector_back, svector_pop_back}
use netlib.Base.Svector.Back.{svector_back-Filled, svector_pop_back-Filled, size-ne_zero}
use netlib.Coroutine.Schedule.{Co, Schedule, alloc_co, new_co, reuse, grown, put, bytes}
use netlib.Coroutine.Schedule.Table.{
  IsScheduled, count, one_if, is_some, count-append, get_or-append_replicate, nil, snoc, ended,
}
use netlib.Coroutine.Schedule.Drop.{put-runs}
use netlib.Coroutine.Schedule.Add.{Room, added, add-IsScheduled}

not_some {ℓ} : {A : Type ℓ} (x : Option A) → one_if (is_some x) ≡ 0 → x ≡ none
not_some none h = refl
not_some (some a) h = absurd (omega (arith, h))

module _ {R : Type 0} where
  -- What `_alloc_co_` leaves: the id was vacant, and its slot alone has changed.
  pub record Allocated (r : R) (s : Schedule R) (t : List (Option (Co R))) : Type 0 where
    pub id : ℕ
    pub cap : ℕ
    pub nco : ℕ
    pub freed : Svector ℕ
    pub grown_table : List (Option (Co R))
    pub ids : List ℕ
    pub runs : alloc_co r s ≡ done (id, added s id cap nco freed grown_table (new_co r s id))
    pub valid :
        IsScheduled
          (added s id cap nco freed grown_table (new_co r s id))
          (set grown_table id (some (new_co r s id)))
          ids
    pub slots : (j : ℕ) → get_or grown_table j none ≡ get_or t j none
    pub vacant : get_or t id none ≡ none
    pub inside : id < length grown_table

  new_co_block :
      (r : R) (s : Schedule R) (id : ℕ) → length (bytes (new_co r s id).stack) ≡ (new_co r s id).cap
  new_co_block r s id = block s.pri_stack
    where
      block :
          (b : Bool)
          → length (bytes (if b then some (replicate s.pristacksize 0) else none))
            ≡ (if b then s.pristacksize else 0)
      block true = length-replicate s.pristacksize 0
      block false = refl

  allocated :
      (r : R) {s : Schedule R} {t : List (Option (Co R))} {ids : List ℕ} (w : IsScheduled s t ids)
      {id cap nco : ℕ} {v : Svector ℕ} {t' : List (Option (Co R))} {ids' : List ℕ}
      (m : Room s t ids id cap nco v t' ids')
      → alloc_co r s ≡ done (id, added s id cap nco v t' (new_co r s id))
      → Allocated r s t
  allocated r {s} w {id} {cap} {nco} {v} {t'} {ids'} m e = record {
    id = id;
    cap = cap;
    nco = nco;
    freed = v;
    grown_table = t';
    ids = ids';
    runs = e;
    valid = add-IsScheduled w m (new_co r s id) (refl, new_co_block r s id) refl;
    slots = m.slots;
    vacant = m.vacant;
    inside = m.inside;
  }

  module _ (r : R) (s : Schedule R) (t : List (Option (Co R))) where
    -- A free id is taken again.
    alloc_reuse : (ys : List ℕ) (y : ℕ) → IsScheduled s t (ys ++ y ∷ []) → Allocated r s t
    unfolding alloc_co
    alloc_reuse ys y w =
        let (f, k) = svector_pop_back-Filled s.freeid ys y w.free in
        allocated r w
          (record {
            sized = w.sized;
            room = w.room;
            positive = w.positive;
            free = f;
            free_cap = k;
            slots = λ j. refl;
            vacant = vacant;
            inside = inside;
            shift = λ j. ground (arith, count-append j ys (y ∷ []));
          })
          (ap
              (λ b.
                if not b
                then reuse (svector_back s.freeid) r s
                else if leb s.cap s.nco
                then (put s.cap (some (new_co r s s.nco))
                      (record s { co = grown s.co s.cap; cap = s.cap * 2; nco = s.nco + 1 })
                    >>= λ s'. done (s.nco, s'))
                else (put s.nco (some (new_co r s s.nco)) (record s { nco = s.nco + 1 }) >>= λ s'.
                    done (s.nco, s')))
              (size-ne_zero s.freeid ys y w.free)
            ∙ ap (λ x. reuse x r s) (svector_back-Filled s.freeid ys y w.free)
            ∙ ap (λ m. m >>= λ s'. done (y, s'))
                (put-runs (record s { freeid = svector_pop_back s.freeid }) t y
                  (some (new_co r s y)) w.table inside))
      where
        bal : count y ys + 1 + one_if (is_some (get_or t y none)) ≡ one_if (ltb y s.nco)
        bal =
            let b = w.balance y in
            let one = ap {B = ℕ} (λ (b : Bool). if b then 1 else 0) (==_refl y) in
            omega (arith, b, one, count-append y ys (y ∷ []))

        inside : y < length t
        inside = let b = bal in let l = w.sized in let m = w.room in ground arith

        vacant : get_or t y none ≡ none
        vacant = not_some (get_or t y none) (let b = bal in ground arith)

    module _ (w : IsScheduled s t []) where
      no_free : (s.freeid.size == 0) ≡ true
      no_free = let c = w.free.counted in rw c refl

      vacant_next : get_or t s.nco none ≡ none
      vacant_next = not_some (get_or t s.nco none) (let b = w.balance s.nco in ground arith)

      -- The table is full: it is enlarged.
      alloc_grow : leb s.cap s.nco ≡ true → Allocated r s t
      unfolding alloc_co
      alloc_grow full =
          let eq : s.cap ≡ s.nco = ground (arith, w.room) in
          let len = length-append t (replicate s.cap none) in
          let rep = length-replicate {A = Option (Co R)} s.cap none in
          let size : length (t ++ replicate s.cap none) ≡ s.cap * 2 =
            omega (arith, len, rep, w.sized) in
          allocated r w {id = s.nco} {cap = s.cap * 2} {nco = s.nco + 1} {v = s.freeid}
            {t' = t ++ replicate s.cap none} {ids' = []}
            (record {
              sized = size;
              room = omega (arith, eq, w.positive);
              positive = omega (arith, w.positive);
              free = w.free;
              free_cap = refl;
              slots = λ j. get_or-append_replicate t s.cap j none;
              vacant = vacant_next;
              inside = omega (arith, size, eq, w.positive);
              shift = λ j. ground arith;
            })
            (rw (no_free, full)
              (ap
                  (λ x.
                    put s.cap (some (new_co r s s.nco))
                      (record s { co = grown x s.cap; cap = s.cap * 2; nco = s.nco + 1 })
                    >>= λ s'. done (s.nco, s'))
                  w.table
                ∙ ap
                    (λ k.
                      put k (some (new_co r s s.nco)) (record s {
                        co = some (t ++ replicate s.cap none);
                        cap = s.cap * 2;
                        nco = s.nco + 1;
                      })
                      >>= λ s'. done (s.nco, s'))
                    eq
                ∙ ap (λ m. m >>= λ s'. done (s.nco, s'))
                    (put-runs
                      (record s {
                        co = some (t ++ replicate s.cap none);
                        cap = s.cap * 2;
                        nco = s.nco + 1;
                      })
                      (t ++ replicate s.cap none) s.nco (some (new_co r s s.nco)) refl
                      (omega (arith, size, eq, w.positive)))))

      alloc_next : leb s.cap s.nco ≡ false → Allocated r s t
      unfolding alloc_co
      alloc_next space =
          let lt : s.nco < s.cap = ground arith in
          allocated r w {id = s.nco} {cap = s.cap} {nco = s.nco + 1} {v = s.freeid} {t' = t}
            {ids' = []}
            (record {
              sized = w.sized;
              room = omega (arith, lt);
              positive = w.positive;
              free = w.free;
              free_cap = refl;
              slots = λ j. refl;
              vacant = vacant_next;
              inside = omega (arith, lt, w.sized);
              shift = λ j. ground arith;
            })
            (rw (no_free, space)
              (ap (λ m. m >>= λ s'. done (s.nco, s'))
                (put-runs (record s { nco = s.nco + 1 }) t s.nco (some (new_co r s s.nco)) w.table
                  (omega (arith, lt, w.sized)))))

  pub alloc_co-Allocated :
      (r : R) (s : Schedule R) (t : List (Option (Co R))) (ids : List ℕ)
      → IsScheduled s t ids
      → Allocated r s t
  alloc_co-Allocated r s t ids w = elim (ended ids) [
    | nil e ↦
        let w' = subst (λ k. IsScheduled s t k) e w in
        elim (Bool-cases (leb s.cap s.nco)) [
          | inl full ↦ alloc_grow r s t w' full
          | inr space ↦ alloc_next r s t w' space
        ]
    | snoc ys y e ↦ alloc_reuse r s t ys y (subst (λ k. IsScheduled s t k) e w)
  ]
