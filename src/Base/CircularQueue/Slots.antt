-- ===== src/Base/CircularQueue/Slots.antt =====
-- The occupied slots of a ring (base/circular_queue.hpp), in order from its head.
use netlib.Common.{
  ℕ, zero, suc, ◌+◌, ◌-◌, ◌%◌, ◌≤◌, ◌<◌, ◌≡◌, ◌≢◌, refl, sym, ap, ap₂, ◌∙◌, ◌⊎◌, inl, inr, Option,
  none, List, [], ◌∷◌, ◌++◌, arith, get_or, set, length,
}
use native.Mathlib.Nat.{mod-eq_of_lt, mod-eq-sub-mod, mod-add-mod}
use native.Mathlib.Decide.{dec_lt}

pub wrap_small : (i c : ℕ) → i < c → i % c ≡ i
wrap_small i c h = mod-eq_of_lt h

pub wrap_big : (i c : ℕ) → c ≤ i → i < c + c → i % c ≡ i - c
wrap_big i c h k = mod-eq-sub-mod h ∙ mod-eq_of_lt (omega arith)

-- The slot `i` places after `h`.
abbrev pub slot : ℕ → ℕ → ℕ → ℕ
slot c h i = (h + i) % c

module _ {A : Type 0} where
  pub get_or-set_same :
      (xs : List A) (i : ℕ) (v d : A) → i < length xs → get_or (set xs i v) i d ≡ v
  get_or-set_same [] i v d h = absurd (omega arith)
  get_or-set_same (x ∷ xs) zero v d h = refl
  get_or-set_same (x ∷ xs) (suc i) v d h = get_or-set_same xs i v d (omega arith)

  pub get_or-set_other :
      (xs : List A) (i j : ℕ) (v d : A) → i ≢ j → get_or (set xs i v) j d ≡ get_or xs j d
  get_or-set_other [] i j v d h = refl
  get_or-set_other (x ∷ xs) zero zero v d h = absurd (h refl)
  get_or-set_other (x ∷ xs) zero (suc j) v d h = refl
  get_or-set_other (x ∷ xs) (suc i) zero v d h = refl
  get_or-set_other (x ∷ xs) (suc i) (suc j) v d h = get_or-set_other xs i j v d (λ e. h (ap suc e))

pub slot-suc : (c h i : ℕ) → (slot c h i + 1) % c ≡ slot c h (suc i)
slot-suc c h i =
    mod-add-mod (h + i) c 1 ∙ ap (λ k. k % c) {x = h + i + 1} {y = h + suc i} (omega arith)

pub slot-zero : (c h : ℕ) → h < c → slot c h 0 ≡ h
slot-zero c h lt = wrap_small (h + 0) c (omega arith) ∙ omega arith

pub slot-slot : (c h i : ℕ) → slot c h (suc i) ≡ slot c (slot c h 1) i
slot-slot c h i =
    ap (λ k. k % c) {x = h + suc i} {y = (h + 1) + i} (omega arith) ∙ sym (mod-add-mod (h + 1) c i)

module _ {A : Type 0} where
  -- `n` slots from the one `i` places after `h` on.
  abbrev pub slots : List (Option A) → ℕ → ℕ → ℕ → ℕ → List (Option A)
  slots e c h i zero = []
  slots e c h i (suc n) = get_or e (slot c h i) none ∷ slots e c h (suc i) n

  pub slots-snoc :
      (e : List (Option A)) (c h i n : ℕ)
      → slots e c h i (suc n) ≡ slots e c h i n ++ (get_or e (slot c h (i + n)) none ∷ [])
  slots-snoc e c h i zero = ap (λ k. get_or e (slot c h k) none ∷ []) (omega arith)
  slots-snoc e c h i (suc n) =
      let k : suc i + n ≡ i + suc n = omega arith in
      ap (◌∷◌ (get_or e (slot c h i) none)) (
        slots-snoc e c h (suc i) n
        ∙ ap (λ j. slots e c h (suc i) n ++ (get_or e (slot c h j) none ∷ [])) k)

  -- A change of a slot that is none of these.
  pub slots-set :
      (e : List (Option A)) (c h i n j : ℕ) (v : Option A)
      → ((k : ℕ) → k < i + n → i ≤ k → j ≢ slot c h k)
      → slots (set e j v) c h i n ≡ slots e c h i n
  slots-set e c h i zero j v far = refl
  slots-set e c h i (suc n) j v far =
      rw (get_or-set_other e j (slot c h i) v none (far i (omega arith) (omega arith))) (
        ap (◌∷◌ (get_or e (slot c h i) none))
          (slots-set e c h (suc i) n j v (λ k lt le. far k (omega arith) (omega arith))))

  -- The same slots from a head that has moved on by one.
  pub slots-head :
      (e : List (Option A)) (c h i n : ℕ)
      → h < c
      → slots e c h (suc i) n ≡ slots e c (slot c h 1) i n
  slots-head e c h i zero lt = refl
  slots-head e c h i (suc n) lt =
      ap₂ ◌∷◌ (ap (λ k. get_or e k none) (slot-slot c h i)) (slots-head e c h (suc i) n lt)

-- A slot as a sum without the wrap.
pub slot-cases :
    (c h i : ℕ)
    → h < c
    → i ≤ c
    → ((slot c h i ≡ h + i) × (h + i < c)) ⊎ ((slot c h i + c ≡ h + i) × (c ≤ h + i))
slot-cases c h i lt le = elim (dec_lt (h + i) c) [
  | yes p ↦ inl (wrap_small (h + i) c p, p)
  | no p ↦
      let e = wrap_big (h + i) c (omega arith) (omega arith) in inr (omega (arith, e), omega arith)
]

-- Different places are different slots.
pub slot_ne : (c h j k : ℕ) → h < c → j < k → k < c → slot c h k ≢ slot c h j
slot_ne c h j k lt less within e = elim (slot-cases c h j lt (omega arith)) [
  | inl (a, p) ↦ elim (slot-cases c h k lt (omega arith)) [
    | inl (b, q) ↦ absurd (omega arith)
    | inr (b, q) ↦ absurd (omega arith)
  ]
  | inr (a, p) ↦ elim (slot-cases c h k lt (omega arith)) [
    | inl (b, q) ↦ absurd (omega arith)
    | inr (b, q) ↦ absurd (omega arith)
  ]
]

-- The slot before the one `n + 1` places on.
pub slot_before : (c h n : ℕ) → h < c → n < c → (c + slot c h (suc n) - 1) % c ≡ slot c h n
slot_before c h n lt le =
    let t = slot c h (suc n) in
    elim (slot-cases c h (suc n) lt (omega arith)) [
      | inl (a, p) ↦
          wrap_big (c + t - 1) c (omega arith) (omega arith)
          ∙ omega arith
          ∙ sym (wrap_small (h + n) c (omega arith))
      | inr (a, p) ↦ elim (dec_lt (h + n) c) [
        | yes q ↦
            wrap_small (c + t - 1) c (omega arith) ∙ omega arith ∙ sym (wrap_small (h + n) c q)
        | no q ↦
            wrap_big (c + t - 1) c (omega arith) (omega arith)
            ∙ omega arith
            ∙ sym (wrap_big (h + n) c (omega arith) (omega arith))
      ]
    ]
