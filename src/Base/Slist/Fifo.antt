-- ===== src/Base/Slist/Fifo.antt =====
-- base/slist.hpp: a list used as a queue, against the sequence that it stands for.
use netlib.Common.{ℕ, suc, ◌≡◌, refl, sym, ap, ◌∙◌, Bool, List, [], ◌∷◌, ◌++◌, length, ◌==◌}
use netlib.Base.Slist.{
  Node, Heap, Slist, Run, done, fault, lost, push_back, front, pop_front, size, empty, load, pop_at,
  ◌>>=◌,
}
use netlib.Base.Slist.Linked.{IsLinked, values, values-append}
use netlib.Base.Slist.Ops.{push_back-Pushed, front-first}
use netlib.Base.Slist.Free.{pop_front-Popped}

-- The calls of a client, and what they return.
pub data Call (A : Type 0) : Type 0 where
  push : A → Call A
  pop : Call A
  peek : Call A
  count : Call A
  test : Call A

pub data Back (A : Type 0) : Type 0 where
  nothing : Back A
  value : A → Back A
  number : ℕ → Back A
  flag : Bool → Back A

module _ {A : Type 0} where
  pub run_call : Call A → Slist → Heap A → Run (Back A × Slist × Heap A)
  run_call (push t) l h = do (l', h') ← push_back t l h; done (nothing, l', h')
  run_call pop l h = do (l', h') ← pop_front l h; done (nothing, l', h')
  run_call peek l h = do v ← front l h; done (value v, l, h)
  run_call count l h = done (number (size l), l, h)
  run_call test l h = done (flag (empty l), l, h)

  pub run_calls : List (Call A) → Slist → Heap A → Run (List (Back A))
  run_calls [] l h = done []
  run_calls (c ∷ cs) l h = do (b, l', h') ← run_call c l h; bs ← run_calls cs l' h'; done (b ∷ bs)

  -- The same on a sequence: first in, first out.
  unfoldable pub spec_call : Call A → List A → Run (Back A × List A)
  spec_call (push t) xs = done (nothing, xs ++ t ∷ [])
  spec_call pop [] = done (nothing, [])
  spec_call pop (x ∷ xs) = done (nothing, xs)
  spec_call peek [] = fault
  spec_call peek (x ∷ xs) = done (value x, x ∷ xs)
  spec_call count xs = done (number (length xs), xs)
  spec_call test xs = done (flag (length xs == 0), xs)

  unfoldable pub spec_calls : List (Call A) → List A → Run (List (Back A))
  unfolding spec_call
  spec_calls [] xs = done []
  spec_calls (c ∷ cs) xs = do (b, ys) ← spec_call c xs; bs ← spec_calls cs ys; done (b ∷ bs)

  -- One call on a well-formed list does what the specification says, a fault included.
  abbrev Follows : Run (Back A × Slist × Heap A) → Run (Back A × List A) → Type 0
  Follows m (done (b, ys)) =
      (l' : Slist) × (h' : Heap A) × (ns : List (ℕ × A)) × (m ≡ done (b, l', h'))
      × IsLinked l' h' ns
      × (values ns ≡ ys)
  Follows m fault = m ≡ fault
  Follows m lost = ⊥

  length-values : (ns : List (ℕ × A)) → length (values ns) ≡ length ns
  length-values [] = refl
  length-values ((a, v) ∷ r) = ap suc (length-values r)

  run_call-Follows :
      (c : Call A) (l : Slist) (h : Heap A) (ns : List (ℕ × A))
      → IsLinked l h ns
      → Follows (run_call c l h) (spec_call c (values ns))
  unfolding run_call spec_call size empty front pop_front
  run_call-Follows (push t) l h ns w =
      let p = push_back-Pushed t l h ns w in
      (
        p.list,
        p.heap,
        ns ++ (h.brk, t) ∷ [],
        ap (λ m. m >>= λ (x : Slist × Heap A). done (nothing, x.0, x.1)) p.runs,
        p.linked,
        values-append ns ((h.brk, t) ∷ []),
      )
  run_call-Follows pop l h [] w = (
    l,
    h,
    [],
    ap (λ p. pop_at p l h >>= λ (x : Slist × Heap A). done (nothing, x.0, x.1)) w.heads,
    w,
    refl,
  )
  run_call-Follows pop l h ((a, v) ∷ r) w =
      let p = pop_front-Popped l h a v r w in
      (
        p.list,
        p.heap,
        r,
        ap (λ m. m >>= λ (x : Slist × Heap A). done (nothing, x.0, x.1)) p.runs,
        p.linked,
        refl,
      )
  run_call-Follows peek l h [] w =
      ap (λ p. (load p h >>= λ (n : Node A). done n.val) >>= λ v. done (value v, l, h)) w.heads
  run_call-Follows peek l h ((a, v) ∷ r) w = (
    l,
    h,
    (a, v) ∷ r,
    ap (λ m. m >>= λ u. done (value u, l, h)) (front-first l h a v r w),
    w,
    refl,
  )
  run_call-Follows count l h ns w =
      (l, h, ns, ap (λ n. done (number n, l, h)) (w.counts ∙ sym (length-values ns)), w, refl)
  run_call-Follows test l h ns w =
      (l, h, ns, ap (λ n. done (flag (n == 0), l, h)) (w.counts ∙ sym (length-values ns)), w, refl)

  -- On a well-formed list, any sequence of push_back, pop_front, front, size and empty returns
  -- what it returns on the sequence of values, first in first out, and uses a null or freed node
  -- exactly if it calls front while that sequence is empty.
  pub run_calls-eq-spec :
      (cs : List (Call A)) (l : Slist) (h : Heap A) (ns : List (ℕ × A))
      → IsLinked l h ns
      → run_calls cs l h ≡ spec_calls cs (values ns)
  unfolding run_calls spec_calls
  run_calls-eq-spec [] l h ns w = refl
  run_calls-eq-spec (c ∷ cs) l h ns w =
      follow (spec_call c (values ns)) (run_call-Follows c l h ns w) (run_calls-eq-spec cs)
    where
      follow :
          (s : Run (Back A × List A))
          → Follows (run_call c l h) s
          → ((l : Slist) (h : Heap A) (ns : List (ℕ × A))
              → IsLinked l h ns
              → run_calls cs l h ≡ spec_calls cs (values ns))
          → (run_call c l h >>= λ p. run_calls cs p.1 p.2 >>= λ bs. done (p.0 ∷ bs))
            ≡ (s >>= λ p. spec_calls cs p.1 >>= λ bs. done (p.0 ∷ bs))
      follow (done (b, ys)) (l', h', ms, e, w', vs) ih =
          ap
            (λ m.
              m >>= λ (p : Back A × Slist × Heap A). run_calls cs p.1 p.2 >>= λ bs. done (p.0 ∷ bs))
            e
          ∙ ap (λ m. m >>= λ bs. done (b ∷ bs)) (ih l' h' ms w' ∙ ap (spec_calls cs) vs)
      follow fault e ih =
          ap
            (λ m.
              m >>= λ (p : Back A × Slist × Heap A). run_calls cs p.1 p.2 >>= λ bs. done (p.0 ∷ bs))
            e
      follow lost e ih = elim e [ ]
