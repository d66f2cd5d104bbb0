-- ===== src/Coroutine/Wakeup.antt =====
-- coroutine/coroutine.hpp: the part of `CoroutineTask` by which a thread wakes a coroutine of
-- another one, `addResume` with a thread and `doThrResume`. The lists stand on one heap.
pub mod Sound
pub mod Add
pub mod Take
pub mod Delivered
mod Tests
use netlib.Common.{ℕ, zero, suc, Option, none, some, List, [], ◌∷◌, ◌==◌, if◌then◌else◌}
use netlib.Base.Slist.{
  Heap, Slist, Run, done, lost, ◌>>=◌, empty_list, empty, push_back, front, pop_front, join,
}

-- `_queue_map`: a thread and its list of coroutines.
abbrev pub QueueMap : Type 0
QueueMap = List (ℕ × Slist)

unfoldable pub add_resume : ℕ → ℕ → QueueMap → Heap ℕ → Run (QueueMap × Heap ℕ)
add_resume thrid id [] h = do (l, h') ← push_back id empty_list h; done ((thrid, l) ∷ [], h')
add_resume thrid id ((t, l) ∷ m) h =
    let later = add_resume thrid id m h in
    if t == thrid
    then (push_back id l h >>= λ (l', h'). done ((t, l') ∷ m, h'))
    else (later >>= λ (m', h'). done ((t, l) ∷ m', h'))

-- The calls of `addResume` that are made while a coroutine runs, by it or by other threads.
unfoldable pub add_resumes : List (ℕ × ℕ) → QueueMap → Heap ℕ → Run (QueueMap × Heap ℕ)
add_resumes [] m h = done (m, h)
add_resumes ((thrid, id) ∷ cs) m h = do (m', h') ← add_resume thrid id m h; add_resumes cs m' h'

-- `tmp.join(*iter->second)` for the list of the thread, if it has one.
unfoldable pub take_queue : ℕ → QueueMap → Heap ℕ → Run (Slist × QueueMap × Heap ℕ)
take_queue thrid [] h = done (empty_list, [], h)
take_queue thrid ((t, l) ∷ m) h =
    let later = take_queue thrid m h in
    if t == thrid
    then (join empty_list l h >>= λ (tmp, l', h'). done (tmp, (t, l') ∷ m, h'))
    else (later >>= λ (tmp, m', h'). done (tmp, (t, l) ∷ m', h'))

-- The loop of `doThrResume`, on fuel: the coroutines in the order in which `resume` is called on
-- them. `during` says what is added while one runs.
unfoldable pub resume_all :
    ℕ → (ℕ → List (ℕ × ℕ)) → Slist → QueueMap → Heap ℕ → Run (List ℕ × QueueMap × Heap ℕ)
resume_all zero during tmp m h = lost
resume_all (suc f) during tmp m h = if empty tmp then done ([], m, h) else (do
  id ← front tmp h
  (tmp', h₁) ← pop_front tmp h
  (m', h₂) ← add_resumes (during id) m h₁
  (ids, m'', h₃) ← resume_all f during tmp' m' h₂
  done (id ∷ ids, m'', h₃))

-- `cur` is `curid()`.
unfoldable pub do_thr_resume :
    ℕ → (ℕ → List (ℕ × ℕ)) → Option ℕ → ℕ → QueueMap → Heap ℕ → Run (List ℕ × QueueMap × Heap ℕ)
do_thr_resume f during (some cur) thrid m h = done ([], m, h)
do_thr_resume f during none thrid m h = do
  (tmp, m', h') ← take_queue thrid m h
  resume_all f during tmp m' h'
