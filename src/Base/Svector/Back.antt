-- ===== src/Base/Svector/Back.antt =====
-- What `back` and `pop_back` of base/svector.hpp do on a vector that holds a sequence.
use netlib.Common.{
  ℕ, zero, suc, ◌+◌, ◌-◌, ◌≤◌, ◌<◌, ◌≡◌, refl, sym, ap, subst, ◌∙◌, inl, inr, Option, none, some,
  List, [], ◌∷◌, ◌++◌, arith, map, take, length, length-append, length-memcpy, length-take,
  take-append, take-all, take-memcpy, memcpy, get_or, ◌==◌, ne_==, if◌then◌else◌, false,
}
use netlib.Base.Svector.{Svector, svector_back, svector_pop_back}
use netlib.Base.Svector.Filled.{Filled, map-snoc_some}

module _ {ℓ} {A : Type ℓ} where
  take-take : (i j : ℕ) (xs : List A) → i ≤ j → take i (take j xs) ≡ take i xs
  take-take zero j xs h = refl
  take-take (suc i) zero xs h = absurd (omega arith)
  take-take (suc i) (suc j) [] h = refl
  take-take (suc i) (suc j) (x ∷ xs) h = ap (◌∷◌ x) (take-take i j xs (omega arith))

  get_or-take : (i j : ℕ) (xs : List A) (d : A) → i < j → get_or (take j xs) i d ≡ get_or xs i d
  get_or-take i zero xs d h = absurd (omega arith)
  get_or-take i (suc j) [] d h = refl
  get_or-take zero (suc j) (x ∷ xs) d h = refl
  get_or-take (suc i) (suc j) (x ∷ xs) d h = get_or-take i j xs d (omega arith)

  get_or-length_append : (xs : List A) (y d : A) → get_or (xs ++ y ∷ []) (length xs) d ≡ y
  get_or-length_append [] y d = refl
  get_or-length_append (x ∷ xs) y d = get_or-length_append xs y d

  length-map : {B : Type ℓ} (f : A → B) (xs : List A) → length (map f xs) ≡ length xs
  length-map f [] = refl
  length-map f (x ∷ xs) = ap suc (length-map f xs)

module _ {A : Type 0} (v : Svector A) (xs : List A) (x : A) (f : Filled v (xs ++ x ∷ [])) where
  last_place : v.size ≡ length xs + 1
  last_place = f.counted ∙ length-append xs (x ∷ [])

  items_snoc : take v.size v.head ≡ map some xs ++ some x ∷ []
  items_snoc = f.items ∙ map-snoc_some xs x

  pub svector_back-Filled : svector_back v ≡ some x
  unfolding svector_back
  svector_back-Filled =
      sym (get_or-take (v.size - 1) v.size v.head none (omega (arith, last_place)))
      ∙ ap (λ ys. get_or ys (v.size - 1) none) items_snoc
      ∙ ap (λ k. get_or (map some xs ++ some x ∷ []) k none)
          (omega (arith, last_place, length-map {A = A} {B = Option A} some xs))
      ∙ get_or-length_append (map some xs) (some x) none

  pub size-ne_zero : (v.size == 0) ≡ false
  size-ne_zero = ne_== v.size 0 (λ e. absurd (omega (arith, last_place, e)))

  pub svector_pop_back_lem :
      svector_pop_back v
      ≡ record v { size = v.size - 1; head = memcpy v.head (v.size - 1) (none ∷ []) }
  unfolding svector_pop_back
  svector_pop_back_lem =
      ap
        (λ b.
          if b
          then v
          else record v { size = v.size - 1; head = memcpy v.head (v.size - 1) (none ∷ []) })
        size-ne_zero

  popped-Filled :
      Filled (record v { size = v.size - 1; head = memcpy v.head (v.size - 1) (none ∷ []) }) xs
  popped-Filled =
      let k = v.size - 1 in
      let len = length-memcpy v.head k (none ∷ []) in
      record {
        counted = omega (arith, last_place);
        block = elim f.block [ inl e ↦ inl (len ∙ e) | inr e ↦ inr (len ∙ e) ];
        fits = omega (arith, len, f.fits);
        items =
            sym (take-take k (k + 1) (memcpy v.head k (none ∷ [])) (omega arith))
            ∙ ap (take k) (take-memcpy v.head k (none ∷ []) (omega (arith, last_place, f.fits)))
            ∙ take-append k (take k v.head) (none ∷ []) (omega (arith, short))
            ∙ ap (take k) (
                sym (take-take k v.size v.head (omega arith))
                ∙ ap (take k) items_snoc
                ∙ take-append k (map some xs) (some x ∷ []) (omega (arith, place))
                ∙ take-all k (map some xs) (omega (arith, place)))
            ∙ take-all k (map some xs) (omega (arith, place));
      }
    where
      place : length (map {B = Option A} some xs) ≡ v.size - 1
      place = omega (arith, last_place, length-map {A = A} {B = Option A} some xs)

      short : v.size - 1 ≤ length (take (v.size - 1) v.head)
      short = omega (arith, length-take (v.size - 1) v.head, f.fits)

  pub svector_pop_back-Filled : Filled (svector_pop_back v) xs × ((svector_pop_back v).cap ≡ v.cap)
  svector_pop_back-Filled = (
    subst (λ w. Filled w xs) (sym svector_pop_back_lem) popped-Filled,
    ap (λ w. w.cap) svector_pop_back_lem,
  )
