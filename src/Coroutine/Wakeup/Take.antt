-- ===== src/Coroutine/Wakeup/Take.antt =====
-- How `doThrResume` of coroutine/coroutine.hpp takes the list of its thread.
use netlib.Common.{
  ℕ, ◌≡◌, refl, ap, inl, Bool, true, false, List, [], ◌∷◌, arith, ◌==◌, if◌then◌else◌,
}
use netlib.Base.Slist.{Heap, Slist, Run, done, ◌>>=◌, empty_list, join}
use netlib.Base.Slist.Linked.{IsLinked, Keeps, values}
use netlib.Base.Slist.Join.{join-Joined}
use netlib.Coroutine.Wakeup.{QueueMap, take_queue}
use netlib.Coroutine.Wakeup.Sound.{
  Nodes, Entries, map_of, waiting_of, Separate, AllSeparate, Sound, IsLinked-kept, Sound-kept,
  Disjoint-nil, empty_list-IsLinked,
}

-- The coroutines that a thread is to resume, and the queues without them.
unfoldable pub spec_waiting : ℕ → List (ℕ × List ℕ) → List ℕ
spec_waiting thrid [] = []
spec_waiting thrid ((t, xs) ∷ q) =
    let later = spec_waiting thrid q in if t == thrid then xs else later

unfoldable pub spec_taken : ℕ → List (ℕ × List ℕ) → List (ℕ × List ℕ)
spec_taken thrid [] = []
spec_taken thrid ((t, xs) ∷ q) =
    let later = spec_taken thrid q in if t == thrid then (t, []) ∷ q else (t, xs) ∷ later

pub record Taken (xs : List ℕ) (q : List (ℕ × List ℕ)) (es : Entries) (h : Heap ℕ)
    (m : Run (Slist × QueueMap × Heap ℕ)) : Type 0 where
  pub tmp : Slist
  pub nodes : Nodes
  pub entries : Entries
  pub heap : Heap ℕ
  pub runs : m ≡ done (tmp, map_of entries, heap)
  pub linked : IsLinked tmp heap nodes
  pub holds : values nodes ≡ xs
  pub sound : Sound entries heap
  pub waiting : waiting_of entries ≡ q
  pub separate : AllSeparate nodes entries
  pub keeps : Keeps [] h heap
  pub apart : (ks : Nodes) → AllSeparate ks es → AllSeparate ks entries
  pub off : (ks : Nodes) → AllSeparate ks es → Separate ks nodes

AllSeparate-nil : (es : Entries) → AllSeparate [] es
AllSeparate-nil [] = tt
AllSeparate-nil ((t, l, ns) ∷ es) = ((tt, Disjoint-nil ns), AllSeparate-nil es)

take_here :
    (t : ℕ) (l : Slist) (ns : Nodes) (es : Entries) (h : Heap ℕ)
    → Sound ((t, l, ns) ∷ es) h
    → Taken
        (values ns)
        ((t, []) ∷ waiting_of es)
        ((t, l, ns) ∷ es)
        h
        (join empty_list l h >>= λ (tmp, l', h'). done (tmp, (t, l') ∷ map_of es, h'))
take_here t l ns es h w =
    let j =
      join-Joined empty_list l h [] ns (empty_list-IsLinked h) w.0 (Disjoint-nil ns) (inl refl) in
    record {
      tmp = j.list;
      nodes = ns;
      entries = (t, empty_list, []) ∷ es;
      heap = j.heap;
      runs = ap (λ x. x >>= λ (tmp, l', h'). done (tmp, (t, l') ∷ map_of es, h')) j.runs;
      linked = j.linked;
      holds = refl;
      sound = (
        empty_list-IsLinked j.heap,
        AllSeparate-nil es,
        Sound-kept es h j.heap [] j.keeps (AllSeparate-nil es) w.2,
      );
      waiting = refl;
      separate = ((Disjoint-nil ns, tt), w.1);
      keeps = j.keeps;
      apart = λ ks d. ((Disjoint-nil ks, tt), d.1);
      off = λ ks d. d.0;
    }

take_later :
    (t : ℕ) (l : Slist) (ns : Nodes) (es : Entries) (h : Heap ℕ) (xs : List ℕ)
    (q : List (ℕ × List ℕ)) (m : Run (Slist × QueueMap × Heap ℕ))
    → Sound ((t, l, ns) ∷ es) h
    → Taken xs q es h m
    → Taken xs
        ((t, values ns) ∷ q)
        ((t, l, ns) ∷ es)
        h
        (m >>= λ (tmp, m', h'). done (tmp, (t, l) ∷ m', h'))
take_later t l ns es h xs q m w a =
    let o = a.off ns w.1 in
    record {
      tmp = a.tmp;
      nodes = a.nodes;
      entries = (t, l, ns) ∷ a.entries;
      heap = a.heap;
      runs = ap (λ x. x >>= λ (tmp, m', h'). done (tmp, (t, l) ∷ m', h')) a.runs;
      linked = a.linked;
      holds = a.holds;
      sound =
          (IsLinked-kept l h a.heap [] ns a.keeps (Disjoint-nil ns) w.0, a.apart ns w.1, a.sound);
      waiting = ap (λ x. (t, values ns) ∷ x) a.waiting;
      separate = ((o.1, o.0), a.separate);
      keeps = a.keeps;
      apart = λ ks d. (d.0, a.apart ks d.1);
      off = λ ks d. a.off ks d.1;
    }

either :
    (b : Bool) (es : Entries) (h : Heap ℕ) (xs xs' : List ℕ) (q q' : List (ℕ × List ℕ))
    (m m' : Run (Slist × QueueMap × Heap ℕ))
    → Taken xs q es h m
    → Taken xs' q' es h m'
    → Taken (if b then xs else xs') (if b then q else q') es h (if b then m else m')
either true es h xs xs' q q' m m' a a' = a
either false es h xs xs' q q' m m' a a' = a'

pub take_queue-Taken :
    (thrid : ℕ) (es : Entries) (h : Heap ℕ)
    → Sound es h
    → Taken
        (spec_waiting thrid (waiting_of es))
        (spec_taken thrid (waiting_of es))
        es
        h
        (take_queue thrid (map_of es) h)
unfolding take_queue spec_waiting spec_taken
take_queue-Taken thrid [] h w = record {
  tmp = empty_list;
  nodes = [];
  entries = [];
  heap = h;
  runs = refl;
  linked = empty_list-IsLinked h;
  holds = refl;
  sound = tt;
  waiting = refl;
  separate = tt;
  keeps = record { grows = omega arith; keeps = λ c p b. refl };
  apart = λ ks d. tt;
  off = λ ks d. (Disjoint-nil ks, tt);
}
take_queue-Taken thrid ((t, l, ns) ∷ es) h w =
    either (t == thrid) ((t, l, ns) ∷ es) h _ _ _ _ _ _ (take_here t l ns es h w)
      (take_later t l ns es h _ _ _ w (take_queue-Taken thrid es h w.2))
