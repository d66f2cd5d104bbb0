-- ===== src/Base/Svector/Tests.antt =====
-- base/svector.hpp at a vector that has grown once.
use netlib.Common.{ℕ, ◌*◌, ◌≤◌, ◌<◌, ◌≡◌, refl, ◌⊎◌, inr, none, some, [], ◌∷◌, arith, length}
use netlib.Base.Svector.{Svector, svector_push_back}
use netlib.Base.Svector.Filled.{Filled, svector_push_back-Filled}

-- Two elements in a block of two whose capacity is still one.
abbrev grown : Svector ℕ
grown = record { cap = 1; size = 2; head = some 5 ∷ some 6 ∷ [] }

grown-Filled : Filled grown (5 ∷ 6 ∷ [])
grown-Filled = record { counted = refl; block = inr refl; fits = omega arith; items = refl }

svector_push_back-Filled_example :
    ((v' : Svector ℕ) × (svector_push_back 7 grown ≡ some v')
      × Filled v' (5 ∷ 6 ∷ 7 ∷ [])
      × (v'.cap ≡ 1)
      × (length {A = ℕ} (5 ∷ 6 ∷ []) < 1 * 2))
    ⊎ ((svector_push_back 7 grown ≡ none) × (1 * 2 ≤ length {A = ℕ} (5 ∷ 6 ∷ [])))
svector_push_back-Filled_example = svector_push_back-Filled 7 grown (5 ∷ 6 ∷ []) grown-Filled

-- The third element is written past the end.
push_overruns : svector_push_back 7 grown ≡ none
unfolding svector_push_back
push_overruns = refl
