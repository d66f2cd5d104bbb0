-- ===== src/Base/Svector/Filled.antt =====
-- What `push_back` of base/svector.hpp does, and up to which size.
use netlib.Common.{
  ℕ, ◌+◌, ◌-◌, ◌*◌, ◌≤◌, ◌<◌, ◌≡◌, refl, sym, ap, ◌∙◌, ◌⊎◌, inl, inr, Option, none, some, List, [],
  ◌∷◌, ◌++◌, arith, lt→ltb, le→ltb, le→leb, lt→leb, map, take, length, length-append, length-take,
  length-replicate, length-memcpy, take-append, take-all, take-memcpy, replicate, memcpy,
}
use native.Mathlib.Decide.{dec_lt}
use netlib.Base.Svector.{Svector, new_svector, realloc, svector_push_back}

module _ {A : Type 0} where
  -- The vector holds `xs`; its block is as long as `cap` says, or twice that.
  pub record Filled (v : Svector A) (xs : List A) : Type 0 where
    pub counted : v.size ≡ length xs
    pub block : (length v.head ≡ v.cap) ⊎ (length v.head ≡ v.cap * 2)
    pub fits : v.size ≤ length v.head
    pub items : take v.size v.head ≡ map some xs

  pub map-snoc_some :
      (xs : List A) (x : A) → map some (xs ++ (x ∷ [])) ≡ map some xs ++ (some x ∷ [])
  map-snoc_some [] x = refl
  map-snoc_some (y ∷ xs) x = ap (◌∷◌ (some y)) (map-snoc_some xs x)

  pub new_svector-Filled : (cap : ℕ) → Filled (new_svector cap) []
  unfolding new_svector
  new_svector-Filled cap = record {
    counted = refl;
    block = inl (length-replicate {A = Option A} cap none);
    fits = omega arith;
    items = refl;
  }

  length-realloc :
      (n : ℕ) (block : List (Option A)) → length block ≤ n → length (realloc n block) ≡ n
  length-realloc n block h = omega (
    arith,
    length-append (take n block) (replicate (n - length block) none),
    length-take n block,
    length-replicate {A = Option A} (n - length block) none,
  )

  take-realloc :
      (k n : ℕ) (block : List (Option A))
      → k ≤ length block
      → length block ≤ n
      → take k (realloc n block) ≡ take k block
  take-realloc k n block h l =
      let whole = take-all n block l in
      take-append k (take n block) _ (omega (arith, ap length whole)) ∙ ap (take k) whole

  -- The new element goes behind the others.
  put-Filled :
      (t : A) (v : Svector A) (xs : List A) (block : List (Option A))
      → Filled v xs
      → take v.size block ≡ take v.size v.head
      → (length block ≡ v.cap) ⊎ (length block ≡ v.cap * 2)
      → v.size < length block
      → Filled
          (record v { size = v.size + 1; head = memcpy block v.size (some t ∷ []) })
          (xs ++ (t ∷ []))
  put-Filled t v xs block f e l lt =
      let len = length-memcpy block v.size (some t ∷ []) in
      record {
        counted = omega (arith, f.counted, length-append xs (t ∷ []));
        block = elim l [ inl k ↦ inl (len ∙ k) | inr k ↦ inr (len ∙ k) ];
        fits = omega (arith, len);
        items =
            take-memcpy block v.size (some t ∷ []) (omega arith)
            ∙ ap (λ ys. ys ++ (some t ∷ [])) (e ∙ f.items)
            ∙ sym (map-snoc_some xs t);
      }

  -- On a vector that holds a sequence in a block of one or two times its capacity, push_back
  -- appends if the sequence is shorter than twice the capacity, and keeps the capacity as it is;
  -- else it writes past the end of the block.
  pub svector_push_back-Filled :
      (t : A) (v : Svector A) (xs : List A)
      → Filled v xs
      → ((v' : Svector A) × (svector_push_back t v ≡ some v')
          × Filled v' (xs ++ (t ∷ []))
          × (v'.cap ≡ v.cap)
          × (length xs < v.cap * 2))
        ⊎ ((svector_push_back t v ≡ none) × (v.cap * 2 ≤ length xs))
  unfolding svector_push_back
  svector_push_back-Filled t v xs f = elim (dec_lt v.size v.cap) [
    | yes p ↦
        let lt : v.size < length v.head = elim f.block [
          | inl k ↦ omega arith
          | inr k ↦ omega arith
        ] in
        inl (
          _,
          rw (lt→leb v.cap v.size p, lt→ltb v.size (length v.head) lt) refl,
          put-Filled t v xs v.head f refl f.block lt,
          refl,
          omega (arith, f.counted),
        )
    | no p ↦
        let short : length v.head ≤ v.cap * 2 = elim f.block [
          | inl k ↦ omega arith
          | inr k ↦ omega arith
        ] in
        let block = realloc (v.cap * 2) v.head in
        let len = length-realloc (v.cap * 2) v.head short in
        elim (dec_lt v.size (v.cap * 2)) [
          | yes q ↦ inl (
            _,
            rw
                (
                  le→leb v.cap v.size (omega arith),
                  lt→ltb v.size (length block) (omega (arith, len)),
                )
                refl,
            put-Filled t v xs block f (take-realloc v.size (v.cap * 2) v.head f.fits short)
                (inr len) (omega (arith, len)),
            refl,
            omega (arith, f.counted),
          )
          | no q ↦ inr (
            rw
                (
                  le→leb v.cap v.size (omega arith),
                  le→ltb v.size (length block) (omega (arith, len)),
                )
                refl,
            omega (arith, f.counted),
          )
        ]
  ]
