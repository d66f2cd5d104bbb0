-- ===== src/Coroutine/Wakeup/Add.antt =====
-- What `addResume` of coroutine/coroutine.hpp does to the lists of `_queue_map`.
use netlib.Common.{
  ℕ, ◌≤◌, ◌≡◌, refl, ap, ◌∙◌, Bool, true, false, List, [], ◌∷◌, ◌++◌, arith, ◌==◌, if◌then◌else◌,
}
use netlib.Base.Slist.{Heap, Slist, Run, done, ◌>>=◌, empty_list, push_back}
use netlib.Base.Slist.Linked.{
  IsLinked, Below, Below-Apart, Below-mono, Disjoint-one, values, values-append,
}
use netlib.Base.Slist.Ops.{push_back-Pushed}
use netlib.Coroutine.Wakeup.{QueueMap, add_resume, add_resumes}
use netlib.Coroutine.Wakeup.Sound.{
  Nodes, Entries, map_of, waiting_of, AllSeparate, Sound, IsLinked-kept, Sound-kept, Disjoint-snoc,
  snoc-Disjoint, snoc-AllSeparate, Disjoint-nil, empty_list-IsLinked,
}

-- A coroutine is added behind those of its thread.
unfoldable pub spec_add : ℕ → ℕ → List (ℕ × List ℕ) → List (ℕ × List ℕ)
spec_add thrid id [] = (thrid, id ∷ []) ∷ []
spec_add thrid id ((t, xs) ∷ q) =
    let later = spec_add thrid id q in
    if t == thrid then (t, xs ++ id ∷ []) ∷ q else (t, xs) ∷ later

unfoldable pub spec_adds : List (ℕ × ℕ) → List (ℕ × List ℕ) → List (ℕ × List ℕ)
spec_adds [] q = q
spec_adds ((thrid, id) ∷ cs) q = spec_adds cs (spec_add thrid id q)

-- What a call of `addResume` leaves: `ks` are nodes that were in the heap and are not in the map.
pub record Added (q : List (ℕ × List ℕ)) (es : Entries) (h : Heap ℕ) (m : Run (QueueMap × Heap ℕ))
    : Type 0 where
  pub entries : Entries
  pub heap : Heap ℕ
  pub runs : m ≡ done (map_of entries, heap)
  pub sound : Sound entries heap
  pub waiting : waiting_of entries ≡ q
  pub grows : h.brk ≤ heap.brk
  pub apart : (ks : Nodes) → AllSeparate ks es → Below h.brk ks → AllSeparate ks entries
  pub linked : (l : Slist) (ks : Nodes) → AllSeparate ks es → IsLinked l h ks → IsLinked l heap ks

add_first :
    (thrid id : ℕ) (h : Heap ℕ) → Added ((thrid, id ∷ []) ∷ []) [] h (add_resume thrid id [] h)
unfolding add_resume
add_first thrid id h =
    let p = push_back-Pushed id empty_list h [] (empty_list-IsLinked h) in
    record {
      entries = (thrid, p.list, (h.brk, id) ∷ []) ∷ [];
      heap = p.heap;
      runs = ap (λ x. x >>= λ (l, h'). done ((thrid, l) ∷ [], h')) p.runs;
      sound = (p.linked, tt, tt);
      waiting = refl;
      grows = p.keeps.grows;
      apart = λ ks d b.
          ((Disjoint-one h.brk id ks (Below-Apart h.brk ks b), (Below-Apart h.brk ks b, tt)), tt);
      linked = λ l ks d w. IsLinked-kept l h p.heap [] ks p.keeps (Disjoint-nil ks) w;
    }

-- The thread is that of the first list.
add_here :
    (id : ℕ) (t : ℕ) (l : Slist) (ns : Nodes) (es : Entries) (h : Heap ℕ)
    → Sound ((t, l, ns) ∷ es) h
    → Added
        ((t, values ns ++ id ∷ []) ∷ waiting_of es)
        ((t, l, ns) ∷ es)
        h
        (push_back id l h >>= λ (l', h'). done ((t, l') ∷ map_of es, h'))
add_here id t l ns es h w =
    let p = push_back-Pushed id l h ns w.0 in
    record {
      entries = (t, p.list, ns ++ (h.brk, id) ∷ []) ∷ es;
      heap = p.heap;
      runs = ap (λ x. x >>= λ (l', h'). done ((t, l') ∷ map_of es, h')) p.runs;
      sound = (
        p.linked,
        snoc-AllSeparate ns es h id w.1 w.2,
        Sound-kept es h p.heap ns p.keeps w.1 w.2,
      );
      waiting = ap (λ x. (t, x) ∷ waiting_of es) (values-append ns ((h.brk, id) ∷ []));
      grows = p.keeps.grows;
      apart = λ ks d b.
          let q = Below-Apart h.brk ks b in
          ((Disjoint-snoc ks ns h.brk id d.0.0 q, snoc-Disjoint ns ks h.brk id d.0.1 q), d.1);
      linked = λ l' ks d k. IsLinked-kept l' h p.heap ns ks p.keeps d.0.0 k;
    }

-- The thread is a later one.
add_later :
    (t : ℕ) (l : Slist) (ns : Nodes) (es : Entries) (h : Heap ℕ) (q : List (ℕ × List ℕ))
    (m : Run (QueueMap × Heap ℕ))
    → Sound ((t, l, ns) ∷ es) h
    → Added q es h m
    → Added ((t, values ns) ∷ q) ((t, l, ns) ∷ es) h (m >>= λ (m', h'). done ((t, l) ∷ m', h'))
add_later t l ns es h q m w a = record {
  entries = (t, l, ns) ∷ a.entries;
  heap = a.heap;
  runs = ap (λ x. x >>= λ (m', h'). done ((t, l) ∷ m', h')) a.runs;
  sound = (a.linked l ns w.1 w.0, a.apart ns w.1 w.0.below, a.sound);
  waiting = ap (λ x. (t, values ns) ∷ x) a.waiting;
  grows = a.grows;
  apart = λ ks d b. (d.0, a.apart ks d.1 b);
  linked = λ l' ks d k. a.linked l' ks d.1 k;
}

either :
    (b : Bool) (es : Entries) (h : Heap ℕ) (q q' : List (ℕ × List ℕ))
    (m m' : Run (QueueMap × Heap ℕ))
    → Added q es h m
    → Added q' es h m'
    → Added (if b then q else q') es h (if b then m else m')
either true es h q q' m m' a a' = a
either false es h q q' m m' a a' = a'

pub add_resume-Added :
    (thrid id : ℕ) (es : Entries) (h : Heap ℕ)
    → Sound es h
    → Added (spec_add thrid id (waiting_of es)) es h (add_resume thrid id (map_of es) h)
unfolding add_resume spec_add
add_resume-Added thrid id [] h w = add_first thrid id h
add_resume-Added thrid id ((t, l, ns) ∷ es) h w =
    either (t == thrid) ((t, l, ns) ∷ es) h _ _ _ _ (add_here id t l ns es h w)
      (add_later t l ns es h _ _ w (add_resume-Added thrid id es h w.2))

pub add_resumes-Added :
    (cs : List (ℕ × ℕ)) (es : Entries) (h : Heap ℕ)
    → Sound es h
    → Added (spec_adds cs (waiting_of es)) es h (add_resumes cs (map_of es) h)
unfolding add_resumes spec_adds
add_resumes-Added [] es h w = record {
  entries = es;
  heap = h;
  runs = refl;
  sound = w;
  waiting = refl;
  grows = omega arith;
  apart = λ ks d b. d;
  linked = λ l ks d k. k;
}
add_resumes-Added ((thrid, id) ∷ cs) es h w =
    let a = add_resume-Added thrid id es h w in
    let z = add_resumes-Added cs a.entries a.heap a.sound in
    record {
      entries = z.entries;
      heap = z.heap;
      runs = ap (λ x. x >>= λ (m', h'). add_resumes cs m' h') a.runs ∙ z.runs;
      sound = z.sound;
      waiting = z.waiting ∙ ap (spec_adds cs) a.waiting;
      grows = omega (arith, a.grows, z.grows);
      apart = λ ks d b. z.apart ks (a.apart ks d b) (Below-mono h.brk a.heap.brk ks a.grows b);
      linked = λ l ks d k. z.linked l ks (a.apart ks d k.below) (a.linked l ks d k);
    }
