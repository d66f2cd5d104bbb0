-- ===== src/Base/Slist/Free.antt =====
-- base/slist.hpp: `pop_front`, and the loop of `clear` and of the destructor.
use netlib.Common.{
  ℕ, zero, suc, ◌-◌, ◌<◌, ◌≡◌, ◌≢◌, refl, sym, ap, ◌∙◌, Option, none, some, List, [], ◌∷◌, arith,
  length, ne_==, ==_refl, if◌then◌else◌,
}
use netlib.Base.Slist.{
  Node, Heap, Slist, done, fault, pop_front, free_from, clear, destroy, update, pop_at, load,
  delete, ◌>>=◌, same, empty_list, push_back, push_at, new_node, pushed,
}
use netlib.Base.Slist.Linked.{
  IsLinked, Keeps, Links, Apart, Distinct, first, last, Links-update, last_at, last-some,
  Apart-last, Below-Apart,
}

module _ {A : Type 0} where
  abbrev freed : ℕ → Heap A → Heap A
  freed a h = record h { cell = update h.cell a none }

  delete_live :
      (a : ℕ) (n : Node A) (h : Heap A) → h.cell a ≡ some n → delete (some a) h ≡ done (freed a h)
  delete_live a n h e = ap (λ x. elim x [ none ↦ fault | some k ↦ done (freed a h) ]) e

  load_live : (a : ℕ) (n : Node A) (h : Heap A) → h.cell a ≡ some n → load (some a) h ≡ done n
  load_live a n h e = ap (λ x. elim x [ none ↦ fault | some k ↦ done k ]) e

  -- What `pop_front` leaves.
  pub record Popped (l : Slist) (h : Heap A) (a : ℕ) (v : A) (r : List (ℕ × A)) : Type 0 where
    pub list : Slist
    pub heap : Heap A
    pub runs : pop_front l h ≡ done (list, heap)
    pub linked : IsLinked list heap r
    pub keeps : Keeps ((a, v) ∷ r) h heap
    pub freed : heap.cell a ≡ none

  module _ (l : Slist) (h : Heap A) (a : ℕ) (v : A) (r : List (ℕ × A)) where
    abbrev popped : Slist
    popped = record {
      count = l.count - 1;
      head = first r none;
      tail = if same (some a) l.tail then first r none else l.tail;
    }

    pop_at-runs : IsLinked l h ((a, v) ∷ r) → pop_at (some a) l h ≡ done (popped, freed a h)
    pop_at-runs w =
        ap
          (λ m. m >>= λ n. delete (some a) h >>= λ h'. done (
            record {
              count = l.count - 1;
              head = n.next;
              tail = if same (some a) l.tail then n.next else l.tail;
            },
            h',
          ))
          (load_live a (record { val = v; next = first r none }) h w.links.0)
        ∙ ap (λ m. m >>= λ h'. done (popped, h'))
            (delete_live a (record { val = v; next = first r none }) h w.links.0)

  popped_tail :
      (a : ℕ) (v : A) (r : List (ℕ × A))
      → Apart a r
      → (if same (some a) (last r (some a)) then first r none else last r (some a)) ≡ last r none
  popped_tail a v [] p = rw (==_refl a) refl
  popped_tail a v ((b, w) ∷ r) p =
      rw (last-some b r, ne_== a (last_at b r) (λ e. Apart-last a b w r p (sym e))) refl

  -- x
  pub pop_front-Popped :
      (l : Slist) (h : Heap A) (a : ℕ) (v : A) (r : List (ℕ × A))
      → IsLinked l h ((a, v) ∷ r)
      → Popped l h a v r
  unfolding pop_front
  pop_front-Popped l h a v r w = record {
    list = popped l h a v r;
    heap = freed a h;
    runs = ap (λ p. pop_at p l h) w.heads ∙ pop_at-runs l h a v r w;
    linked = record {
      heads = refl;
      tails =
          ap (λ t. if same (some a) t then first r none else t) w.tails
          ∙ popped_tail a v r w.distinct.0;
      counts = omega (arith, w.counts);
      links = Links-update h.cell a none r none w.distinct.0 w.links.1;
      distinct = w.distinct.1;
      below = w.below.1;
    };
    keeps = record { grows = omega arith; keeps = λ c p b. rw (ne_== a c p.0) refl };
    freed = rw (==_refl a) refl;
  }

  -- None of these nodes is left.
  abbrev pub Gone : (ℕ → Option (Node A)) → List (ℕ × A) → Type 0
  Gone m [] = Unit
  Gone m ((a, v) ∷ r) = (m a ≡ none) × Gone m r

  -- Exactly these nodes are freed.
  pub record Freed (ns : List (ℕ × A)) (h h' : Heap A) : Type 0 where
    pub gone : Gone h'.cell ns
    pub rest : (c : ℕ) → Apart c ns → h'.cell c ≡ h.cell c
    pub brks : h'.brk ≡ h.brk

  pub free_from-Freed :
      (f : ℕ) (ns : List (ℕ × A)) (h : Heap A)
      → length ns < f
      → Links h.cell ns none
      → Distinct ns
      → (h' : Heap A) × (free_from f (first ns none) h ≡ done h') × Freed ns h h'
  unfolding free_from
  free_from-Freed zero ns h lt ls d = absurd (omega arith)
  free_from-Freed (suc f) [] h lt ls d =
      (h, refl, record { gone = tt; rest = λ c p. refl; brks = refl })
  free_from-Freed (suc f) ((a, v) ∷ r) h lt ls d =
      let (h', e, z) =
        free_from-Freed f r (freed a h) (omega arith) (Links-update h.cell a none r none d.0 ls.1)
          d.1 in
      (
        h',
        ap (λ m. m >>= λ n. delete (some a) h >>= λ k. free_from f n.next k)
              (load_live a (record { val = v; next = first r none }) h ls.0)
            ∙ ap (λ m. m >>= λ k. free_from f (first r none) k)
                (delete_live a (record { val = v; next = first r none }) h ls.0)
            ∙ e,
        record {
          gone = (z.rest a d.0 ∙ rw (==_refl a) refl, z.gone);
          rest = λ c p. z.rest c p.1 ∙ rw (ne_== a c p.0) refl;
          brks = z.brks;
        },
      )

  module _ (l : Slist) (h : Heap A) (ns : List (ℕ × A)) (w : IsLinked l h ns) where
    free_all :
        (f : ℕ) → length ns < f → (h' : Heap A) × (free_from f l.head h ≡ done h') × Freed ns h h'
    free_all f lt =
        let (h', e, z) = free_from-Freed f ns h lt w.links w.distinct in
        (h', ap (λ p. free_from f p h) w.heads ∙ e, z)

  -- On a well-formed list, the loop of the destructor, with fuel above the length, ends without a
  -- fault; it frees every node of the list, leaves all others as they were, and the list is empty.
  pub destroy-Freed :
      (l : Slist) (h : Heap A) (ns : List (ℕ × A)) (f : ℕ)
      → IsLinked l h ns
      → length ns < f
      → (h' : Heap A) × (destroy f l h ≡ done (empty_list, h')) × Freed ns h h'
  unfolding destroy
  destroy-Freed l h ns f w lt =
      let (h', e, z) = free_all l h ns w f lt in
      (h', ap (λ m. m >>= λ k. done (empty_list, k)) e, z)

  Gone-last :
      (m : ℕ → Option (Node A)) (a : ℕ) (v : A) (r : List (ℕ × A))
      → Gone m ((a, v) ∷ r)
      → m (last_at a r) ≡ none
  Gone-last m a v [] g = g.0
  Gone-last m a v ((b, w) ∷ r) g = Gone-last m b w r g.1

  push_at-fault :
      (b : ℕ) (t : A) (l : Slist) (h : Heap A)
      → h.cell b ≡ none
      → b ≢ h.brk
      → push_at (some b) t l h ≡ fault
  push_at-fault b t l h e ne =
      let gone : (new_node t h).cell b ≡ none = rw (ne_== h.brk b (λ q. ne (sym q))) e in
      ap
        (λ (x : Option (Node A)).
          (elim x [
            | none ↦ fault
            | some n ↦ done (record (new_node t h) {
              cell = update (new_node t h).cell b (some (record n { next = some h.brk }));
            })
          ])
          >>= λ h'. done (pushed l (some h.brk), h'))
        gone

  -- On a well-formed list that is not empty, clear, with fuel above the length, ends, frees
  -- exactly the nodes of the list and sets the size to 0, but the next push_back faults, since it
  -- writes to the last of the freed nodes.
  pub push_back-clear :
      (l : Slist) (h : Heap A) (a : ℕ) (v : A) (r : List (ℕ × A)) (f : ℕ) (t : A)
      → IsLinked l h ((a, v) ∷ r)
      → length ((a, v) ∷ r) < f
      → (l' : Slist) × (h' : Heap A) × (clear f l h ≡ done (l', h'))
        × (l'.count ≡ 0)
        × Freed ((a, v) ∷ r) h h'
        × (push_back t l' h' ≡ fault)
  unfolding clear push_back
  push_back-clear l h a v r f t w lt =
      let (h', e, z) = free_all l h ((a, v) ∷ r) w f lt in
      let ne : last_at a r ≢ h'.brk =
        λ q. Apart-last h.brk a v r (Below-Apart h.brk ((a, v) ∷ r) w.below) (q ∙ z.brks) in
      (
        record l { count = 0; head = none },
        h',
        ap (λ m. m >>= λ k. done (record l { count = 0; head = none }, k)) e,
        refl,
        z,
        ap (λ p. push_at p t (record l { count = 0; head = none }) h') (w.tails ∙ last-some a r)
            ∙ push_at-fault (last_at a r) t (record l { count = 0; head = none }) h'
                (Gone-last h'.cell a v r z.gone) ne,
      )
