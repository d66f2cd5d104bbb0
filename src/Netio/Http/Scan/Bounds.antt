-- ===== src/Netio/Http/Scan/Bounds.antt =====
-- How much `_Parse1` and `_Parse2` (netio/httpmsg.hpp) copy: something of what there is, and no more.
use netlib.Common.{
  ℕ, suc, ◌+◌, ◌≤◌, ◌<◌, ◌≡◌, refl, ◌⊎◌, inl, inr, true, false, ◌&&◌, List, [], ◌∷◌, ◌==◌, length,
  arith, Bool-cases,
}
use netlib.Netio.Http.Scan.{scan1, scan2, parse1, parse2}

scan1-cases :
    (chr : ℕ) (buf : List ℕ)
    → (((scan1 chr buf).1 ≡ true) × ((scan1 chr buf).0 < length buf))
      ⊎ (((scan1 chr buf).1 ≡ false) × ((scan1 chr buf).0 ≡ length buf))
unfolding scan1
scan1-cases chr [] = inr (refl, refl)
scan1-cases chr (c ∷ cs) = elim (Bool-cases (c == chr)) [
  | inl e ↦ rw e (inl (refl, omega arith))
  | inr e ↦ rw e (elim (scan1-cases chr cs) [
    | inl (h, p) ↦ inl (h, omega arith)
    | inr (h, p) ↦ inr (h, omega arith)
  ])
]

scan2-cases :
    (a b : ℕ) (c : ℕ) (cs : List ℕ)
    → (((scan2 a b (c ∷ cs)).1 ≡ true) × ((scan2 a b (c ∷ cs)).0 + 2 ≤ suc (length cs)))
      ⊎ (((scan2 a b (c ∷ cs)).1 ≡ false) × ((scan2 a b (c ∷ cs)).0 + 1 ≡ suc (length cs)))
unfolding scan2
scan2-cases a b c [] = inr (refl, refl)
scan2-cases a b c (d ∷ cs) = elim (Bool-cases ((c == a) && (d == b))) [
  | inl e ↦ rw e (inl (refl, omega arith))
  | inr e ↦ rw e (elim (scan2-cases a b d cs) [
    | inl (h, p) ↦ inl (h, omega arith)
    | inr (h, p) ↦ inr (h, omega arith)
  ])
]

pub parse1-length : (chr : ℕ) (buf : List ℕ) → (parse1 chr buf).1 ≤ length buf
unfolding parse1
parse1-length chr buf = elim (scan1-cases chr buf) [
  | inl (h, p) ↦ ground arith
  | inr (h, p) ↦ ground arith
]

pub parse2-length : (a b : ℕ) (c : ℕ) (cs : List ℕ) → (parse2 a b (c ∷ cs)).1 ≤ length (c ∷ cs)
unfolding parse2
parse2-length a b c cs = elim (scan2-cases a b c cs) [
  | inl (h, p) ↦ ground arith
  | inr (h, p) ↦ ground arith
]

pub parse2-pos : (a b : ℕ) (c : ℕ) (cs : List ℕ) → 0 < (parse2 a b (c ∷ cs)).1
unfolding parse2
parse2-pos a b c cs = ground arith

pub parse1-pos : (chr : ℕ) (c : ℕ) (cs : List ℕ) → 0 < (parse1 chr (c ∷ cs)).1
unfolding parse1
parse1-pos chr c cs = ground arith
