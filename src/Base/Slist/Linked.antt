-- ===== src/Base/Slist/Linked.antt =====
-- The lists of base/slist.hpp that are well formed: which nodes they have, and what they hold.
use netlib.Common.{
  ℕ, ◌<◌, ◌≡◌, ◌≢◌, refl, Option, none, some, List, [], ◌∷◌, ◌++◌, arith, length, sym, ap, ◌≤◌,
  ne_==, ==_refl,
}
use netlib.Base.Slist.{Node, Heap, Slist, update}

module _ {A : Type 0} where
  abbrev pub first : List (ℕ × A) → Option ℕ → Option ℕ
  first [] e = e
  first ((a, v) ∷ r) e = some a

  abbrev pub last : List (ℕ × A) → Option ℕ → Option ℕ
  last [] e = e
  last ((a, v) ∷ r) e = last r (some a)

  -- The address is not one of these nodes.
  abbrev pub Apart : ℕ → List (ℕ × A) → Type 0
  Apart b [] = Unit
  Apart b ((a, v) ∷ r) = (a ≢ b) × Apart b r

  abbrev pub Distinct : List (ℕ × A) → Type 0
  Distinct [] = Unit
  Distinct ((a, v) ∷ r) = Apart a r × Distinct r

  abbrev pub Below : ℕ → List (ℕ × A) → Type 0
  Below k [] = Unit
  Below k ((a, v) ∷ r) = (a < k) × Below k r

  -- The nodes stand in the heap, each linked to the next and the last one to `e`.
  abbrev pub Links : (ℕ → Option (Node A)) → List (ℕ × A) → Option ℕ → Type 0
  Links m [] e = Unit
  Links m ((a, v) ∷ r) e = (m a ≡ some (record { val = v; next = first r e })) × Links m r e

  pub record IsLinked (l : Slist) (h : Heap A) (ns : List (ℕ × A)) : Type 0 where
    pub heads : l.head ≡ first ns none
    pub tails : l.tail ≡ last ns none
    pub counts : l.count ≡ length ns
    pub links : Links h.cell ns none
    pub distinct : Distinct ns
    pub below : Below h.brk ns

  abbrev pub values : List (ℕ × A) → List A
  values [] = []
  values ((a, v) ∷ r) = v ∷ values r

  -- Nothing changes but these nodes and what is new.
  pub record Keeps (ns : List (ℕ × A)) (h h' : Heap A) : Type 0 where
    pub grows : h.brk ≤ h'.brk
    pub keeps : (c : ℕ) → Apart c ns → c < h.brk → h'.cell c ≡ h.cell c

  -- Two lists share no node.
  abbrev pub Disjoint : List (ℕ × A) → List (ℕ × A) → Type 0
  Disjoint [] ns = Unit
  Disjoint ((a, v) ∷ r) ns = Apart a ns × Disjoint r ns

  pub Below-Apart : (k : ℕ) (ns : List (ℕ × A)) → Below k ns → Apart k ns
  Below-Apart k [] b = tt
  Below-Apart k ((a, v) ∷ r) b = (λ e. absurd (omega (arith, e)), Below-Apart k r b.1)

  pub Below-mono : (k j : ℕ) (ns : List (ℕ × A)) → k ≤ j → Below k ns → Below j ns
  Below-mono k j [] le b = tt
  Below-mono k j ((a, v) ∷ r) le b = (omega arith, Below-mono k j r le b.1)

  -- A write elsewhere leaves the links.
  pub Links-update :
      (m : ℕ → Option (Node A)) (b : ℕ) (x : Option (Node A)) (ns : List (ℕ × A)) (e : Option ℕ)
      → Apart b ns
      → Links m ns e
      → Links (update m b x) ns e
  Links-update m b x [] e ap ls = tt
  Links-update m b x ((a, v) ∷ r) e ap ls =
      (rw (ne_== b a (λ q. ap.0 (sym q))) ls.0, Links-update m b x r e ap.1 ls.1)

  pub first-append :
      (ns os : List (ℕ × A)) (e : Option ℕ) → first (ns ++ os) e ≡ first ns (first os e)
  first-append [] os e = refl
  first-append ((a, v) ∷ r) os e = refl

  pub last-append : (ns os : List (ℕ × A)) (e : Option ℕ) → last (ns ++ os) e ≡ last os (last ns e)
  last-append [] os e = refl
  last-append ((a, v) ∷ r) os e = last-append r os (some a)

  pub Links-append :
      (m : ℕ → Option (Node A)) (ns os : List (ℕ × A)) (e : Option ℕ)
      → Links m ns (first os e)
      → Links m os e
      → Links m (ns ++ os) e
  Links-append m [] os e ln lo = lo
  Links-append m ((a, v) ∷ r) os e ln lo =
      (rw (first-append r os e) ln.0, Links-append m r os e ln.1 lo)

  pub Apart-append : (b : ℕ) (ns os : List (ℕ × A)) → Apart b ns → Apart b os → Apart b (ns ++ os)
  Apart-append b [] os p q = q
  Apart-append b ((a, v) ∷ r) os p q = (p.0, Apart-append b r os p.1 q)

  pub Below-append : (k : ℕ) (ns os : List (ℕ × A)) → Below k ns → Below k os → Below k (ns ++ os)
  Below-append k [] os p q = q
  Below-append k ((a, v) ∷ r) os p q = (p.0, Below-append k r os p.1 q)

  pub Distinct-append :
      (ns os : List (ℕ × A)) → Distinct ns → Distinct os → Disjoint ns os → Distinct (ns ++ os)
  Distinct-append [] os p q d = q
  Distinct-append ((a, v) ∷ r) os p q d =
      (Apart-append a r os p.0 d.0, Distinct-append r os p.1 q d.1)

  pub values-append : (ns os : List (ℕ × A)) → values (ns ++ os) ≡ values ns ++ values os
  values-append [] os = refl
  values-append ((a, v) ∷ r) os = ap (λ x. v ∷ x) (values-append r os)

  pub Disjoint-one : (b : ℕ) (t : A) (ns : List (ℕ × A)) → Apart b ns → Disjoint ns ((b, t) ∷ [])
  Disjoint-one b t [] p = tt
  Disjoint-one b t ((a, v) ∷ r) p = ((λ e. p.0 (sym e), tt), Disjoint-one b t r p.1)

  -- The last node, its value, and the heap in which it points to `q`.
  abbrev pub last_at : ℕ → List (ℕ × A) → ℕ
  last_at a [] = a
  last_at a ((b, w) ∷ r) = last_at b r

  abbrev pub last_val : A → List (ℕ × A) → A
  last_val v [] = v
  last_val v ((b, w) ∷ r) = last_val w r

  pub last-some : (a : ℕ) (r : List (ℕ × A)) → last r (some a) ≡ some (last_at a r)
  last-some a [] = refl
  last-some a ((b, w) ∷ r) = last-some b r

  pub Links-last :
      (m : ℕ → Option (Node A)) (a : ℕ) (v : A) (r : List (ℕ × A)) (e : Option ℕ)
      → Links m ((a, v) ∷ r) e
      → m (last_at a r) ≡ some (record { val = last_val v r; next = e })
  Links-last m a v [] e ls = ls.0
  Links-last m a v ((b, w) ∷ r) e ls = Links-last m b w r e ls.1

  pub Apart-last : (c a : ℕ) (v : A) (r : List (ℕ × A)) → Apart c ((a, v) ∷ r) → last_at a r ≢ c
  Apart-last c a v [] p = p.0
  Apart-last c a v ((b, w) ∷ r) p = Apart-last c b w r p.1

  -- The last node is linked on to `q`.
  pub Links-relink :
      (m : ℕ → Option (Node A)) (a : ℕ) (v : A) (r : List (ℕ × A)) (e q : Option ℕ)
      → Distinct ((a, v) ∷ r)
      → Links m ((a, v) ∷ r) e
      → Links
          (update m (last_at a r) (some (record { val = last_val v r; next = q })))
          ((a, v) ∷ r)
          q
  Links-relink m a v [] e q d ls = (rw (==_refl a) refl, tt)
  Links-relink m a v ((b, w) ∷ r) e q d ls =
      (rw (ne_== (last_at b r) a (Apart-last a b w r d.0)) ls.0, Links-relink m b w r e q d.1 ls.1)
