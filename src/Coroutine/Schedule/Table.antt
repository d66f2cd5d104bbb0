-- ===== src/Coroutine/Schedule/Table.antt =====
-- What holds of the table of coroutines between two operations (coroutine/coroutine.hpp).
use netlib.Common.{
  ℕ, zero, suc, ◌+◌, ◌≤◌, ◌<◌, ◌≡◌, ◌≢◌, refl, sym, ap, subst, ◌∙◌, Bool, Option, none, some, true,
  false, List, [], ◌∷◌, ◌++◌, arith, ◌==◌, ltb, if◌then◌else◌, get_or, set, length, replicate,
  length-set, inl, inr, ==_refl, ==_iff, ==_ne, Bool-cases,
}
use netlib.Base.Slist.{same}
use netlib.Base.Svector.{default_cap}
use netlib.Base.Svector.Filled.{Filled}
use netlib.Coroutine.Schedule.{Status, ready, running, suspend, dead, Co, Schedule, bytes}

-- How often an id stands in a list.
abbrev pub count : ℕ → List ℕ → ℕ
count i [] = 0
count i (x ∷ xs) = (if x == i then 1 else 0) + count i xs

abbrev pub one_if : Bool → ℕ
one_if true = 1
one_if false = 0

-- A coroutine runs exactly if it is the current one, and a dead one is not kept.
abbrev pub fits_status : Bool → Status → Bool
fits_status true running = true
fits_status false ready = true
fits_status false suspend = true
fits_status true ready = false
fits_status true suspend = false
fits_status true dead = false
fits_status false running = false
fits_status false dead = false

abbrev pub is_some {ℓ} : {A : Type ℓ} → Option A → Bool
is_some none = false
is_some (some a) = true

-- A coroutine carries the id of its slot, and its stack has the capacity that it notes.
abbrev pub Sound : {R : Type 0} → Co R → ℕ → Type 0
Sound c i = (c.id ≡ i) × (length (bytes c.stack) ≡ c.cap)

module _ {R : Type 0} where
  -- `t` is the table behind `_co`, `ids` what `_freeid` holds: every id below `_nco` is either free,
  -- once, or names a coroutine that carries it.
  pub record IsScheduled (s : Schedule R) (t : List (Option (Co R))) (ids : List ℕ) : Type 0 where
    pub table : s.co ≡ some t
    pub sized : length t ≡ s.cap
    pub room : s.nco ≤ s.cap
    pub positive : 0 < s.cap
    pub free : Filled s.freeid ids
    pub free_cap : s.freeid.cap ≡ default_cap
    pub balance : (i : ℕ) → count i ids + one_if (is_some (get_or t i none)) ≡ one_if (ltb i s.nco)
    pub states :
        (i : ℕ) (c : Co R)
        → get_or t i none ≡ some c
        → Sound c i × (fits_status (same s.curco (some i)) c.status ≡ true)
    pub current : (i : ℕ) → s.curco ≡ some i → (c : Co R) × (get_or t i none ≡ some c)

pub count-append : (i : ℕ) (xs ys : List ℕ) → count i (xs ++ ys) ≡ count i xs + count i ys
count-append i [] ys = omega arith
count-append i (x ∷ xs) ys = omega (arith, count-append i xs ys)

module _ {ℓ} {A : Type ℓ} where
  pub get_or-set :
      (t : List A) (i j : ℕ) (v d : A)
      → i < length t
      → get_or (set t i v) j d ≡ (if i == j then v else get_or t j d)
  get_or-set [] i j v d h = absurd (omega arith)
  get_or-set (x ∷ t) zero zero v d h = refl
  get_or-set (x ∷ t) zero (suc j) v d h = ground arith
  get_or-set (x ∷ t) (suc i) zero v d h = ground arith
  get_or-set (x ∷ t) (suc i) (suc j) v d h = get_or-set t i j v d (omega arith) ∙ ground arith

  pub get_or-replicate : (n j : ℕ) (d : A) → get_or (replicate n d) j d ≡ d
  get_or-replicate zero j d = refl
  get_or-replicate (suc n) zero d = refl
  get_or-replicate (suc n) (suc j) d = get_or-replicate n j d

  pub get_or-append_replicate :
      (t : List A) (n j : ℕ) (d : A) → get_or (t ++ replicate n d) j d ≡ get_or t j d
  get_or-append_replicate [] n j d = get_or-replicate n j d
  get_or-append_replicate (x ∷ t) n zero d = refl
  get_or-append_replicate (x ∷ t) n (suc j) d = get_or-append_replicate t n j d

  pub get_or_past : (t : List A) (j : ℕ) (d : A) → length t ≤ j → get_or t j d ≡ d
  get_or_past [] j d h = refl
  get_or_past (x ∷ t) zero d h = absurd (omega arith)
  get_or_past (x ∷ t) (suc j) d h = get_or_past t j d (omega arith)

  -- A list is empty or ends in an element.
  pub data Ended (xs : List A) : Type ℓ where
    nil : xs ≡ [] → Ended xs
    snoc : (ys : List A) (y : A) → xs ≡ ys ++ y ∷ [] → Ended xs

  pub ended : (xs : List A) → Ended xs
  ended [] = nil refl
  ended (x ∷ xs) = elim (ended xs) [
    | nil e ↦ snoc [] x (ap (◌∷◌ x) e)
    | snoc ys y e ↦ snoc (x ∷ ys) y (ap (◌∷◌ x) e)
  ]

pub set-set {ℓ} : {A : Type ℓ} (t : List A) (i : ℕ) (v w : A) → set (set t i v) i w ≡ set t i w
set-set [] i v w = refl
set-set (x ∷ t) zero v w = refl
set-set (x ∷ t) (suc i) v w = ap (◌∷◌ x) (set-set t i v w)

module _ {R : Type 0} {s : Schedule R} {t : List (Option (Co R))} {ids : List ℕ}
    (w : IsScheduled s t ids) where
  -- A slot that names a coroutine lies in the table, below `_nco`, and is not free.
  pub live_slot :
      (i : ℕ) (c : Co R)
      → get_or t i none ≡ some c
      → (i < s.nco) × (i < length t) × (count i ids ≡ 0)
  live_slot i c e =
      let b =
        subst (λ x. count i ids + one_if (is_some x) ≡ one_if (ltb i s.nco)) e (w.balance i) in
      let lt : i < s.nco = ground arith in (lt, omega (arith, w.room, w.sized), ground arith)

module _ {R : Type 0} {s : Schedule R} {t : List (Option (Co R))} {ids : List ℕ} where
  -- A coroutine of the table is changed, and another may become the current one.
  pub replace-IsScheduled :
      (w : IsScheduled s t ids) (id : ℕ) (c c' : Co R) (cur : Option ℕ) (k : List ℕ)
      → get_or t id none ≡ some c
      → Sound c' id
      → fits_status (same cur (some id)) c'.status ≡ true
      → ((j : ℕ) → id ≢ j → same cur (some j) ≡ same s.curco (some j))
      → ((j : ℕ) → cur ≡ some j → id ≡ j)
      → IsScheduled
          (record s { co = some (set t id (some c')); curco = cur; stack = k })
          (set t id (some c'))
          ids
  replace-IsScheduled w id c c' cur k e own fit others only =
      let live = live_slot w id c e in
      record {
        table = refl;
        sized = length-set t id (some c') ∙ w.sized;
        room = w.room;
        positive = w.positive;
        free = w.free;
        free_cap = w.free_cap;
        balance = λ i. elim (Bool-cases (id == i)) [
          | inl q ↦
              let b = w.balance i in
              rw (get_or-set t id i (some c') none live.1, q)
                (subst (λ x. count i ids + one_if (is_some x) ≡ one_if (ltb i s.nco))
                  (subst (λ j. get_or t j none ≡ some c) ((==_iff id i).0 q) e) b)
          | inr q ↦ rw (get_or-set t id i (some c') none live.1, q) (w.balance i)
        ];
        states = λ i d h. elim (Bool-cases (id == i)) [
          | inl q ↦
              let hit : some c' ≡ some d =
                sym (
                  get_or-set t id i (some c') none live.1
                  ∙ ap (λ b. if b then some c' else get_or t i none) q)
                ∙ h in
              let eq : id ≡ i = (==_iff id i).0 q in
              let same_co : c' ≡ d = cc in
              subst (λ x. Sound x i × (fits_status (same cur (some i)) x.status ≡ true)) same_co
                (
                  (own.0 ∙ eq, own.1),
                  subst (λ j. fits_status (same cur (some j)) c'.status ≡ true) eq fit,
                )
          | inr q ↦
              let miss : get_or t i none ≡ some d =
                sym (
                  get_or-set t id i (some c') none live.1
                  ∙ ap (λ b. if b then some c' else get_or t i none) q)
                ∙ h in
              let old = w.states i d miss in
              (old.0, ap (λ b. fits_status b d.status) (others i (==_ne q)) ∙ old.1)
        ];
        current = λ i q. (
          c',
          subst (λ j. get_or (set t id (some c')) j none ≡ some c') (only i q)
              (get_or-set t id id (some c') none live.1
                ∙ ap (λ b. if b then some c' else get_or t id none) (==_refl id)),
        );
      }
