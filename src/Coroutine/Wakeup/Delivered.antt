-- ===== src/Coroutine/Wakeup/Delivered.antt =====
-- `doThrResume` of coroutine/coroutine.hpp on the lists that `addResume` fills.
use netlib.Common.{
  ℕ, zero, suc, ◌<◌, ◌≡◌, refl, ap, ap₂, ne_==, ap₂, ◌∙◌, none, Bool, true, false, List, [], ◌∷◌,
  arith, ◌==◌, if◌then◌else◌, length,
}
use netlib.Base.Slist.{Heap, Slist, Run, done, ◌>>=◌, empty, pop_front}
use netlib.Base.Slist.Linked.{IsLinked, values}
use netlib.Base.Slist.Ops.{front-first}
use netlib.Base.Slist.Free.{pop_front-Popped}
use netlib.Base.Slist.Join.{Disjoint-tail}
use netlib.Coroutine.Wakeup.{QueueMap, add_resumes, resume_all, do_thr_resume}
use netlib.Coroutine.Wakeup.Sound.{
  Nodes, Entries, map_of, waiting_of, AllSeparate, Sound, Sound-kept,
}
use netlib.Coroutine.Wakeup.Add.{spec_adds, add_resumes-Added}
use netlib.Coroutine.Wakeup.Take.{spec_waiting, spec_taken, take_queue-Taken}

-- What is added while these coroutines run, one after the other.
unfoldable pub spec_during : (ℕ → List (ℕ × ℕ)) → List ℕ → List (ℕ × List ℕ) → List (ℕ × List ℕ)
spec_during during [] q = q
spec_during during (id ∷ ids) q = spec_during during ids (spec_adds (during id) q)

-- What a run leaves: `ids` are resumed in this order, and `q` waits afterwards.
pub record Resumed (ids : List ℕ) (q : List (ℕ × List ℕ)) (m : Run (List ℕ × QueueMap × Heap ℕ))
    : Type 0 where
  pub entries : Entries
  pub heap : Heap ℕ
  pub runs : m ≡ done (ids, map_of entries, heap)
  pub sound : Sound entries heap
  pub waiting : waiting_of entries ≡ q

when_true : {R : Type 0} (b : Bool) (x y : R) → b ≡ true → (if b then x else y) ≡ x
when_true b x y e = ap (λ c. if c then x else y) e

when_false : {R : Type 0} (b : Bool) (x y : R) → b ≡ false → (if b then x else y) ≡ y
when_false b x y e = ap (λ c. if c then x else y) e

drop-AllSeparate :
    (a v : ℕ) (r : Nodes) (es : Entries) → AllSeparate ((a, v) ∷ r) es → AllSeparate r es
drop-AllSeparate a v r [] d = tt
drop-AllSeparate a v r ((t, l, os) ∷ es) d =
    ((d.0.0.1, Disjoint-tail a v r os d.0.1), drop-AllSeparate a v r es d.1)

empty_nil : (l : Slist) (h : Heap ℕ) → IsLinked l h [] → empty l ≡ true
unfolding empty
empty_nil l h w = ap (λ n. n == 0) w.counts

empty_cons :
    (l : Slist) (h : Heap ℕ) (a v : ℕ) (r : Nodes) → IsLinked l h ((a, v) ∷ r) → empty l ≡ false
unfolding empty
empty_cons l h a v r w =
    ap (λ n. n == 0) w.counts ∙ ne_== (suc (length r)) 0 (λ e. absurd (omega (arith, e)))

length-values : (ns : Nodes) → length (values ns) ≡ length ns
length-values [] = refl
length-values ((a, v) ∷ r) = ap suc (length-values r)

module _ (during : ℕ → List (ℕ × ℕ)) where
  abbrev go_on : ℕ → ℕ → Slist → QueueMap × Heap ℕ → Run (List ℕ × QueueMap × Heap ℕ)
  go_on f id tmp (m, h) = resume_all f during tmp m h >>= λ (ids, m', h'). done (id ∷ ids, m', h')

  abbrev popped_on : ℕ → ℕ → QueueMap → Slist × Heap ℕ → Run (List ℕ × QueueMap × Heap ℕ)
  popped_on f id m (tmp, h) = add_resumes (during id) m h >>= go_on f id tmp

  pub resume_all-Resumed :
      (f : ℕ) (tmp : Slist) (ns : Nodes) (es : Entries) (h : Heap ℕ)
      → IsLinked tmp h ns
      → AllSeparate ns es
      → Sound es h
      → length ns < f
      → Resumed
          (values ns)
          (spec_during during (values ns) (waiting_of es))
          (resume_all f during tmp (map_of es) h)
  unfolding resume_all spec_during
  resume_all-Resumed zero tmp ns es h w d s lt = absurd (omega arith)
  resume_all-Resumed (suc f) tmp [] es h w d s lt = record {
    entries = es;
    heap = h;
    runs = when_true _ _ _ (empty_nil tmp h w);
    sound = s;
    waiting = refl;
  }
  resume_all-Resumed (suc f) tmp ((a, v) ∷ r) es h w d s lt =
      let p = pop_front-Popped tmp h a v r w in
      let d' = drop-AllSeparate a v r es d in
      let z =
        add_resumes-Added (during v) es p.heap (Sound-kept es h p.heap ((a, v) ∷ r) p.keeps d s) in
      let u =
        resume_all-Resumed f p.list r z.entries z.heap (z.linked p.list r d' p.linked)
          (z.apart r d' p.linked.below) z.sound (omega arith) in
      record {
        entries = u.entries;
        heap = u.heap;
        runs =
            when_false _ _ _ (empty_cons tmp h a v r w)
            ∙ ap (λ x. x >>= λ id. pop_front tmp h >>= popped_on f id (map_of es))
                (front-first tmp h a v r w)
            ∙ ap (λ x. x >>= popped_on f v (map_of es)) p.runs
            ∙ ap (λ x. x >>= go_on f v p.list) z.runs
            ∙ ap (λ x. x >>= λ (ids, m', h'). done (v ∷ ids, m', h')) u.runs;
        sound = u.sound;
        waiting = u.waiting ∙ ap (spec_during during (values r)) z.waiting;
      }

-- When the lists of all threads are well formed and share no node, doThrResume outside a coroutine
-- resumes the coroutines that wait for its thread, each as often as it was added and in that
-- order, on fuel above their number; what addResume is given while they run waits for its thread
-- afterwards, in order, also for this one; what waits for other threads stays; and the lists are
-- again well formed and share no node.
pub do_thr_resume-Delivered :
    (thrid : ℕ) (during : ℕ → List (ℕ × ℕ)) (es : Entries) (h : Heap ℕ) (f : ℕ)
    → Sound es h
    → length (spec_waiting thrid (waiting_of es)) < f
    → (es' : Entries) × (h' : Heap ℕ) × (do_thr_resume f during none thrid (map_of es) h
        ≡ done (spec_waiting thrid (waiting_of es), map_of es', h'))
      × (waiting_of es'
          ≡ spec_during during
              (spec_waiting thrid (waiting_of es))
              (spec_taken thrid (waiting_of es)))
      × Sound es' h'
unfolding do_thr_resume
do_thr_resume-Delivered thrid during es h f s lt =
    let a = take_queue-Taken thrid es h s in
    let u =
      resume_all-Resumed during f a.tmp a.nodes a.entries a.heap a.linked a.separate a.sound
        (omega (arith, length-values a.nodes, ap length a.holds)) in
    (
      u.entries,
      u.heap,
      ap (λ x. x >>= λ (tmp, m', h'). resume_all f during tmp m' h') a.runs
          ∙ u.runs
          ∙ ap (λ x. done (x, map_of u.entries, u.heap)) a.holds,
      u.waiting ∙ ap₂ (spec_during during) a.holds a.waiting,
      u.sound,
    )
