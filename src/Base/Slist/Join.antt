-- ===== src/Base/Slist/Join.antt =====
-- base/slist.hpp: `join`.
use netlib.Common.{
  ℕ, ◌+◌, ◌≡◌, ◌≢◌, refl, sym, ap, subst, ◌∙◌, ◌⊎◌, inl, inr, Option, none, some, List, [], ◌∷◌,
  ◌++◌, arith, length, length-append, ne_==,
}
use netlib.Base.Slist.{
  Node, Heap, Slist, done, fault, join, join_at, update, empty_list, ◌>>=◌, push_back, pushed,
  push_at, or_tail, new_node,
}
use netlib.Base.Slist.Linked.{
  IsLinked, Keeps, Links, Apart, Disjoint, first, Links-update, Links-append, Links-last,
  Links-relink, Apart-last, last_at, last_val, last-some, last-append, Below-append,
  Distinct-append, Below-Apart,
}

module _ {A : Type 0} where
  pub record Joined (l o : Slist) (h : Heap A) (ns os : List (ℕ × A)) : Type 0 where
    pub list : Slist
    pub heap : Heap A
    pub runs : join l o h ≡ done (list, empty_list, heap)
    pub linked : IsLinked list heap (ns ++ os)
    pub keeps : Keeps ns h heap

  Links-away :
      (m : ℕ → Option (Node A)) (a : ℕ) (v : A) (r : List (ℕ × A)) (x : Option (Node A))
      (os : List (ℕ × A))
      → Disjoint os ((a, v) ∷ r)
      → Links m os none
      → Links (update m (last_at a r) x) os none
  Links-away m a v r x [] d ls = tt
  Links-away m a v r x ((b, w) ∷ os) d ls =
      (rw (ne_== (last_at a r) b (Apart-last b a v r d.0)) ls.0, Links-away m a v r x os d.1 ls.1)

  Apart-Disjoint : (a : ℕ) (v : A) (r os : List (ℕ × A)) → Disjoint os ((a, v) ∷ r) → Apart a os
  Apart-Disjoint a v r [] d = tt
  Apart-Disjoint a v r ((b, w) ∷ os) d = (λ e. d.0.0 (sym e), Apart-Disjoint a v r os d.1)

  pub Disjoint-tail :
      (a : ℕ) (v : A) (r os : List (ℕ × A)) → Disjoint os ((a, v) ∷ r) → Disjoint os r
  Disjoint-tail a v r [] d = tt
  Disjoint-tail a v r ((b, w) ∷ os) d = (d.0.1, Disjoint-tail a v r os d.1)

  Disjoint-sym : (ns os : List (ℕ × A)) → Disjoint os ns → Disjoint ns os
  Disjoint-sym [] os d = tt
  Disjoint-sym ((a, v) ∷ r) os d =
      (Apart-Disjoint a v r os d, Disjoint-sym r os (Disjoint-tail a v r os d))

  join_none :
      (l o : Slist) (h : Heap A) (os : List (ℕ × A))
      → IsLinked l h []
      → IsLinked o h os
      → Joined l o h [] os
  unfolding join
  join_none l o h os w z = record {
    list = record { count = l.count + o.count; head = o.head; tail = o.tail };
    heap = h;
    runs = ap (λ p. join_at p l o h >>= λ (l', h'). done (l', empty_list, h')) w.tails;
    linked = record {
      heads = z.heads;
      tails = z.tails;
      counts = omega (arith, w.counts, z.counts);
      links = z.links;
      distinct = z.distinct;
      below = z.below;
    };
    keeps = record { grows = omega arith; keeps = λ c p b. refl };
  }

  module _ (l o : Slist) (h : Heap A) (a : ℕ) (v : A) (r : List (ℕ × A)) where
    abbrev joined_heap : Heap A
    joined_heap = record h {
      cell = update h.cell (last_at a r) (some (record { val = last_val v r; next = o.head }));
    }

    abbrev joined : Slist
    joined = record l { count = l.count + o.count; tail = o.tail }

    join-runs : IsLinked l h ((a, v) ∷ r) → join l o h ≡ done (joined, empty_list, joined_heap)
    unfolding join
    join-runs w =
        ap (λ p. join_at p l o h >>= λ (l', h'). done (l', empty_list, h'))
          (w.tails ∙ last-some a r)
        ∙ ap (λ m. m >>= λ (p : Slist × Heap A). done (p.0, empty_list, p.1)) joined_at
      where
        joined_at : join_at (some (last_at a r)) l o h ≡ done (joined, joined_heap)
        joined_at =
            ap
              (λ (x : Option (Node A)).
                (elim x [
                  | none ↦ fault
                  | some n ↦ done (record h {
                    cell = update h.cell (last_at a r) (some (record n { next = o.head }));
                  })
                ])
                >>= λ h'. done (joined, h'))
              (Links-last h.cell a v r none w.links)

  join_some :
      (l o : Slist) (h : Heap A) (a : ℕ) (v : A) (r : List (ℕ × A)) (b : ℕ) (u : A)
      (s : List (ℕ × A))
      → IsLinked l h ((a, v) ∷ r)
      → IsLinked o h ((b, u) ∷ s)
      → Disjoint ((b, u) ∷ s) ((a, v) ∷ r)
      → Joined l o h ((a, v) ∷ r) ((b, u) ∷ s)
  join_some l o h a v r b u s w z d = record {
    list = joined l o h a v r;
    heap = joined_heap l o h a v r;
    runs = join-runs l o h a v r w;
    linked = record {
      heads = w.heads;
      tails = z.tails ∙ last-some b s ∙ sym (last-append r ((b, u) ∷ s) (some a) ∙ last-some b s);
      counts = omega (arith, w.counts, z.counts, length-append ((a, v) ∷ r) ((b, u) ∷ s));
      links =
          Links-append (joined_heap l o h a v r).cell ((a, v) ∷ r) ((b, u) ∷ s) none
            (subst
              (λ q.
                Links (update h.cell (last_at a r) (some (record { val = last_val v r; next = q })))
                  ((a, v) ∷ r) (some b))
              (sym z.heads) (Links-relink h.cell a v r none (some b) w.distinct w.links))
            (Links-away h.cell a v r _ ((b, u) ∷ s) d z.links);
      distinct =
          Distinct-append ((a, v) ∷ r) ((b, u) ∷ s) w.distinct z.distinct
            (Disjoint-sym ((a, v) ∷ r) ((b, u) ∷ s) d);
      below = Below-append h.brk ((a, v) ∷ r) ((b, u) ∷ s) w.below z.below;
    };
    keeps = record {
      grows = omega arith;
      keeps = λ c p k. rw (ne_== (last_at a r) c (Apart-last c a v r p)) refl;
    };
  }

  -- Joining a well-formed list with another one that shares no node with it, and is not empty
  -- unless the first is, succeeds: the other becomes empty, the list holds both sequences one
  -- after the other and is well-formed, and of the old heap no node but those of the first list
  -- changes.
  pub join-Joined :
      (l o : Slist) (h : Heap A) (ns os : List (ℕ × A))
      → IsLinked l h ns
      → IsLinked o h os
      → Disjoint os ns
      → ((ns ≡ []) ⊎ (os ≢ []))
      → Joined l o h ns os
  join-Joined l o h [] os w z d c = join_none l o h os w z
  join-Joined l o h ((a, v) ∷ r) [] w z d (inl e) = cc
  join-Joined l o h ((a, v) ∷ r) [] w z d (inr ne) = absurd (ne refl)
  join-Joined l o h ((a, v) ∷ r) ((b, u) ∷ s) w z d c = join_some l o h a v r b u s w z d

  -- If a well-formed list that is not empty is joined with an empty one and push_back follows,
  -- both succeed, but the new node is lost: the size is one more than before, while the links from
  -- the head still lead through the old nodes only, the last of which has no next.
  pub join-push_back_lost :
      (l o : Slist) (h : Heap A) (a : ℕ) (v : A) (r : List (ℕ × A)) (t : A)
      → IsLinked l h ((a, v) ∷ r)
      → IsLinked o h []
      → (l₁ l₂ : Slist) × (h₁ h₂ : Heap A) × (join l o h ≡ done (l₁, empty_list, h₁))
        × (push_back t l₁ h₁ ≡ done (l₂, h₂))
        × (l₂.count ≡ length ((a, v) ∷ r) + 1)
        × (l₂.head ≡ first ((a, v) ∷ r) none)
        × Links h₂.cell ((a, v) ∷ r) none
  unfolding push_back
  join-push_back_lost l o h a v r t w z = (
    joined l o h a v r,
    pushed (joined l o h a v r) (some h.brk),
    joined_heap l o h a v r,
    new_node t (joined_heap l o h a v r),
    join-runs l o h a v r w,
    ap (λ p. push_at p t (joined l o h a v r) (joined_heap l o h a v r)) z.tails,
    omega (arith, w.counts, z.counts),
    ap (λ p. or_tail p (some h.brk)) w.heads,
    Links-update (joined_heap l o h a v r).cell h.brk _ ((a, v) ∷ r) none
        (Below-Apart h.brk ((a, v) ∷ r) w.below)
        (subst
          (λ q.
            Links (update h.cell (last_at a r) (some (record { val = last_val v r; next = q })))
              ((a, v) ∷ r) none)
          (sym z.heads) (Links-relink h.cell a v r none none w.distinct w.links)),
  )
