-- ===== src/Base/Slist/Ops.antt =====
-- base/slist.hpp: `push_back`, `front`, `pop_front` and the loops that free, on well-formed lists.
use netlib.Common.{
  ℕ, suc, ◌≡◌, ◌≢◌, refl, sym, ap, ◌∙◌, none, some, List, [], ◌∷◌, ◌++◌, arith, length-append,
  ne_==, ==_refl,
}
use netlib.Base.Slist.{
  Heap, Slist, done, fault, push_back, front, update, new_node, pushed, push_at, load, ◌>>=◌,
  or_tail,
}
use netlib.Base.Slist.Linked.{
  IsLinked, Keeps, Links, Apart, Links-update, Below-Apart, Below-mono, Links-append, Links-last,
  Links-relink, Apart-last, last_at, last_val, last-some, last-append, Below-append,
  Distinct-append, Disjoint-one,
}

module _ {A : Type 0} where
  -- What `push_back` leaves.
  pub record Pushed (t : A) (l : Slist) (h : Heap A) (ns : List (ℕ × A)) : Type 0 where
    pub list : Slist
    pub heap : Heap A
    pub runs : push_back t l h ≡ done (list, heap)
    pub linked : IsLinked list heap (ns ++ (h.brk, t) ∷ [])
    pub keeps : Keeps ns h heap

  push_back_empty : (t : A) (l : Slist) (h : Heap A) → IsLinked l h [] → Pushed t l h []
  unfolding push_back
  push_back_empty t l h w = record {
    list = pushed l (some h.brk);
    heap = new_node t h;
    runs = ap (λ p. push_at p t l h) w.tails;
    linked = record {
      heads = ap (λ p. or_tail p (some h.brk)) w.heads;
      tails = refl;
      counts = omega (arith, w.counts);
      links = (rw (==_refl h.brk) refl, tt);
      distinct = (tt, tt);
      below = (omega arith, tt);
    };
    keeps = record {
      grows = omega arith;
      keeps = λ c p b. rw (ne_== h.brk c (λ e. absurd (omega (arith, e)))) refl;
    };
  }

  module _ (t : A) (l : Slist) (h : Heap A) (a : ℕ) (v : A) (r : List (ℕ × A)) where
    abbrev linked_heap : Heap A
    linked_heap = record {
      brk = suc h.brk;
      cell =
          update (new_node t h).cell (last_at a r)
            (some (record { val = last_val v r; next = some h.brk }));
    }

    module _ (w : IsLinked l h ((a, v) ∷ r)) where
      new-Apart : Apart h.brk ((a, v) ∷ r)
      new-Apart = Below-Apart h.brk ((a, v) ∷ r) w.below

      Links-new : Links (new_node t h).cell ((a, v) ∷ r) none
      Links-new = Links-update h.cell h.brk _ ((a, v) ∷ r) none new-Apart w.links

      last_new :
          (new_node t h).cell (last_at a r) ≡ some (record { val = last_val v r; next = none })
      last_new = Links-last (new_node t h).cell a v r none Links-new

      push_some : push_at (some (last_at a r)) t l h ≡ done (pushed l (some h.brk), linked_heap)
      push_some =
          ap
            (λ x.
              (elim x [
                | none ↦ fault
                | some n ↦ done (record (new_node t h) {
                  cell =
                      update (new_node t h).cell (last_at a r)
                        (some (record n { next = some h.brk }));
                })
              ])
              >>= λ h'. done (pushed l (some h.brk), h'))
            last_new

      last_ne : last_at a r ≢ h.brk
      last_ne = Apart-last h.brk a v r new-Apart

      new_cell : linked_heap.cell h.brk ≡ some (record { val = t; next = none })
      new_cell = rw (ne_== (last_at a r) h.brk last_ne, ==_refl h.brk) refl

      push_back_more : Pushed t l h ((a, v) ∷ r)
      unfolding push_back
      push_back_more = record {
        list = pushed l (some h.brk);
        heap = linked_heap;
        runs = ap (λ p. push_at p t l h) (w.tails ∙ last-some a r) ∙ push_some;
        linked = record {
          heads = ap (λ p. or_tail p (some h.brk)) w.heads;
          tails = sym (last-append ((a, v) ∷ r) ((h.brk, t) ∷ []) none);
          counts = omega (arith, w.counts, length-append ((a, v) ∷ r) ((h.brk, t) ∷ []));
          links =
              Links-append linked_heap.cell ((a, v) ∷ r) ((h.brk, t) ∷ []) none
                (Links-relink (new_node t h).cell a v r none (some h.brk) w.distinct Links-new)
                (new_cell, tt);
          distinct =
              Distinct-append ((a, v) ∷ r) ((h.brk, t) ∷ []) w.distinct (tt, tt)
                (Disjoint-one h.brk t ((a, v) ∷ r) new-Apart);
          below =
              Below-append (suc h.brk) ((a, v) ∷ r) ((h.brk, t) ∷ [])
                (Below-mono h.brk (suc h.brk) ((a, v) ∷ r) (omega arith) w.below) (omega arith, tt);
        };
        keeps = record {
          grows = omega arith;
          keeps = λ c p b.
              rw
                (
                  ne_== (last_at a r) c (Apart-last c a v r p),
                  ne_== h.brk c (λ e. absurd (omega (arith, e))),
                )
                refl;
        };
      }

  -- x
  pub push_back-Pushed :
      (t : A) (l : Slist) (h : Heap A) (ns : List (ℕ × A)) → IsLinked l h ns → Pushed t l h ns
  push_back-Pushed t l h [] w = push_back_empty t l h w
  push_back-Pushed t l h ((a, v) ∷ r) w = push_back_more t l h a v r w

  -- x
  pub front-first :
      (l : Slist) (h : Heap A) (a : ℕ) (v : A) (r : List (ℕ × A))
      → IsLinked l h ((a, v) ∷ r)
      → front l h ≡ done v
  unfolding front
  front-first l h a v r w =
      ap (λ p. load p h >>= λ n. done n.val) w.heads
      ∙ ap (λ x. (elim x [ none ↦ fault | some n ↦ done n ]) >>= λ n. done n.val) w.links.0
