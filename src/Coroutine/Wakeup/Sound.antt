-- ===== src/Coroutine/Wakeup/Sound.antt =====
-- The lists of `_queue_map` (coroutine/coroutine.hpp) on their heap.
use netlib.Common.{ℕ, ◌<◌, ◌≡◌, refl, sym, ◌∙◌, Option, none, List, [], ◌∷◌, ◌++◌}
use netlib.Base.Slist.{Node, Heap, Slist, empty_list}
use netlib.Base.Slist.Linked.{
  IsLinked, Keeps, Links, Apart, Below, Disjoint, Below-Apart, Below-mono, Apart-append, values,
}
use netlib.Coroutine.Wakeup.{QueueMap}

-- The nodes of a list.
abbrev pub Nodes : Type 0
Nodes = List (ℕ × ℕ)

-- A thread, its list and the nodes of the list.
abbrev pub Entries : Type 0
Entries = List (ℕ × Slist × Nodes)

abbrev pub map_of : Entries → QueueMap
map_of [] = []
map_of ((t, l, ns) ∷ es) = (t, l) ∷ map_of es

-- The coroutines that each thread is to resume.
abbrev pub waiting_of : Entries → List (ℕ × List ℕ)
waiting_of [] = []
waiting_of ((t, l, ns) ∷ es) = (t, values ns) ∷ waiting_of es

abbrev pub Separate : Nodes → Nodes → Type 0
Separate ns os = Disjoint ns os × Disjoint os ns

abbrev pub AllSeparate : Nodes → Entries → Type 0
AllSeparate ns [] = Unit
AllSeparate ns ((t, l, os) ∷ es) = Separate ns os × AllSeparate ns es

-- Every list is well formed, and no two share a node.
abbrev pub Sound : Entries → Heap ℕ → Type 0
Sound [] h = Unit
Sound ((t, l, ns) ∷ es) h = IsLinked l h ns × AllSeparate ns es × Sound es h

Links-kept :
    (m m' : ℕ → Option (Node ℕ)) (k : ℕ) (os ns : Nodes) (e : Option ℕ)
    → ((c : ℕ) → Apart c os → c < k → m' c ≡ m c)
    → Disjoint ns os
    → Below k ns
    → Links m ns e
    → Links m' ns e
Links-kept m m' k os [] e f d b ls = tt
Links-kept m m' k os ((a, v) ∷ r) e f d b ls =
    (f a d.0 b.0 ∙ ls.0, Links-kept m m' k os r e f d.1 b.1 ls.1)

-- A list is not touched by what changes other nodes.
pub IsLinked-kept :
    (l : Slist) (h h' : Heap ℕ) (os ns : Nodes)
    → Keeps os h h'
    → Disjoint ns os
    → IsLinked l h ns
    → IsLinked l h' ns
IsLinked-kept l h h' os ns k d w = record {
  heads = w.heads;
  tails = w.tails;
  counts = w.counts;
  links = Links-kept h.cell h'.cell h.brk os ns none k.keeps d w.below w.links;
  distinct = w.distinct;
  below = Below-mono h.brk h'.brk ns k.grows w.below;
}

pub Sound-kept :
    (es : Entries) (h h' : Heap ℕ) (os : Nodes)
    → Keeps os h h'
    → AllSeparate os es
    → Sound es h
    → Sound es h'
Sound-kept [] h h' os k d w = tt
Sound-kept ((t, l, ns) ∷ es) h h' os k d w =
    (IsLinked-kept l h h' os ns k d.0.1 w.0, w.1, Sound-kept es h h' os k d.1 w.2)

pub Disjoint-snoc :
    (ns os : Nodes) (b v : ℕ) → Disjoint ns os → Apart b ns → Disjoint ns (os ++ (b, v) ∷ [])
Disjoint-snoc [] os b v d p = tt
Disjoint-snoc ((a, u) ∷ r) os b v d p =
    (Apart-append a os ((b, v) ∷ []) d.0 (λ e. p.0 (sym e), tt), Disjoint-snoc r os b v d.1 p.1)

pub snoc-Disjoint :
    (ns os : Nodes) (b v : ℕ) → Disjoint ns os → Apart b os → Disjoint (ns ++ (b, v) ∷ []) os
snoc-Disjoint [] os b v d p = (p, tt)
snoc-Disjoint ((a, u) ∷ r) os b v d p = (d.0, snoc-Disjoint r os b v d.1 p)

pub snoc-AllSeparate :
    (ns : Nodes) (es : Entries) (h : Heap ℕ) (v : ℕ)
    → AllSeparate ns es
    → Sound es h
    → AllSeparate (ns ++ (h.brk, v) ∷ []) es
snoc-AllSeparate ns [] h v d w = tt
snoc-AllSeparate ns ((t, l, os) ∷ es) h v d w =
    let p = Below-Apart h.brk os w.0.below in
    (
      (snoc-Disjoint ns os h.brk v d.0.0 p, Disjoint-snoc os ns h.brk v d.0.1 p),
      snoc-AllSeparate ns es h v d.1 w.2,
    )

pub Disjoint-nil : (ks : Nodes) → Disjoint ks []
Disjoint-nil [] = tt
Disjoint-nil ((a, v) ∷ r) = (tt, Disjoint-nil r)

pub empty_list-IsLinked : (h : Heap ℕ) → IsLinked empty_list h []
empty_list-IsLinked h = record {
  heads = refl;
  tails = refl;
  counts = refl;
  links = tt;
  distinct = tt;
  below = tt;
}
