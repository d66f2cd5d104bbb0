-- ===== src/Coroutine/Schedule.antt =====
-- coroutine/coroutine.hpp and coroutine/co_linux_impl.hpp: `basecoroutine`, the table of coroutines
-- of a thread. `swapcontext` and `getcontext` are the system's: `resume` is what happens before the
-- switch to a coroutine, `resumed` what happens after the switch back.
pub mod Table
pub mod Drop
pub mod Add
pub mod Alloc
pub mod Steps
pub mod Switch
pub mod End
pub mod Fresh
pub mod Stack
mod Tests
use netlib.Common.{
  ℕ, zero, suc, ◌+◌, ◌-◌, ◌*◌, Bool, Option, none, some, true, false, List, [], ◌∷◌, ◌++◌, ◌==◌,
  ltb, leb, if◌then◌else◌, get_or, set, take, drop, replicate, length, memcpy, not, ◌&&◌,
}
use netlib.Base.Slist.{Run, done, fault, same, ◌>>=◌}
use netlib.Base.Svector.{
  Svector, new_svector, default_cap, svector_back, svector_pop_back, svector_push_back,
  svector_clear,
}

pub data Status : Type 0 where
  ready running suspend dead : Status

-- `_function` and `_data` are one value, `function`. `NULL` is `none`.
pub record Co (R : Type 0) : Type 0 where
  pub id : ℕ
  pub status : Status
  pub stack : Option (List ℕ)
  pub size : ℕ
  pub cap : ℕ
  pub function : R

-- `_curco` is given by the id of the coroutine that it points to. `pristacksize` is `gpristacksize`.
pub record Schedule (R : Type 0) : Type 0 where
  pub cap : ℕ
  pub nco : ℕ
  pub pri_stack : Bool
  pub pristacksize : ℕ
  pub co : Option (List (Option (Co R)))
  pub curco : Option ℕ
  pub freeid : Svector ℕ
  pub stack : List ℕ

abbrev pub default_coroutine : ℕ
default_coroutine = 1024

abbrev pub bytes : Option (List ℕ) → List ℕ
bytes none = []
bytes (some b) = b

module _ {R : Type 0} where
  -- A thread's schedule before `initEnv`.
  unfoldable pub new_schedule : List ℕ → Schedule R
  unfolding new_svector
  new_schedule stack = record {
    cap = 0;
    nco = 0;
    pri_stack = false;
    pristacksize = 0;
    co = none;
    curco = none;
    freeid = new_svector default_cap;
    stack = stack;
  }

  abbrev pub init_at : Option (List (Option (Co R))) → ℕ → Bool → Schedule R → Schedule R
  init_at none size pri s = record s {
    pri_stack = pri;
    pristacksize = size;
    curco = none;
    cap = default_coroutine;
    co = some (replicate default_coroutine none);
  }
  init_at (some t) size pri s = s

  unfoldable pub init_env : ℕ → Bool → Schedule R → Schedule R
  init_env size pri s = init_at s.co size pri s

  -- `_co[id] = c`
  abbrev pub put_at :
      Option (List (Option (Co R))) → ℕ → Option (Co R) → Schedule R → Run (Schedule R)
  put_at none id c s = fault
  put_at (some t) id c s =
      if ltb id (length t) then done (record s { co = some (set t id c) }) else fault

  abbrev pub put : ℕ → Option (Co R) → Schedule R → Run (Schedule R)
  put id c s = put_at s.co id c s

  abbrev pub slot_in : Option (List (Option (Co R))) → ℕ → Option (Co R)
  slot_in none id = none
  slot_in (some t) id = get_or t id none

  -- `_co[id]`
  abbrev pub slot : ℕ → Schedule R → Option (Co R)
  slot id s = slot_in s.co id

  -- A fresh coroutine with its stack.
  abbrev pub new_co : R → Schedule R → ℕ → Co R
  new_co r s id = record {
    id = id;
    status = ready;
    stack = if s.pri_stack then some (replicate s.pristacksize 0) else none;
    size = 0;
    cap = if s.pri_stack then s.pristacksize else 0;
    function = r;
  }

  abbrev pub grown : Option (List (Option (Co R))) → ℕ → Option (List (Option (Co R)))
  grown none cap = none
  grown (some t) cap = some (t ++ replicate cap none)

  abbrev pub reuse : Option ℕ → R → Schedule R → Run (ℕ × Schedule R)
  reuse none r s = fault
  reuse (some id) r s = do
    s' ← put id (some (new_co r s id)) (record s { freeid = svector_pop_back s.freeid })
    done (id, s')

  unfoldable pub alloc_co : R → Schedule R → Run (ℕ × Schedule R)
  alloc_co r s =
      if not (s.freeid.size == 0)
      then reuse (svector_back s.freeid) r s
      else if leb s.cap s.nco
      then (put s.cap (some (new_co r s s.nco))
            (record s { co = grown s.co s.cap; cap = s.cap * 2; nco = s.nco + 1 })
          >>= λ s'. done (s.nco, s'))
      else (put s.nco (some (new_co r s s.nco)) (record s { nco = s.nco + 1 }) >>= λ s'.
          done (s.nco, s'))

  abbrev pub create_at :
      Option (List (Option (Co R))) → R → Schedule R → Run (Option ℕ × Schedule R)
  create_at none r s = done (none, s)
  create_at (some t) r s = do (id, s') ← alloc_co r s; done (some id, s')

  -- The result is the id, `none` for -1.
  unfoldable pub create : R → Schedule R → Run (Option ℕ × Schedule R)
  create r s = create_at s.co r s

  unfoldable pub close : Schedule R → Schedule R
  close s = record s {
    freeid = svector_clear s.freeid;
    nco = 0;
    cap = 0;
    curco = none;
    co = none;
    pri_stack = false;
  }

  -- `none` for -1.
  unfoldable pub curid : Schedule R → Option ℕ
  curid s = s.curco

  -- `memcpy` of the saved stack to the end of the shared one.
  abbrev pub restored : Co R → List ℕ → List ℕ
  restored c stack = memcpy stack (length stack - c.size) (take c.size (bytes c.stack))

  -- The switch to a coroutine: `true` says that it runs now.
  abbrev pub enter : Co R → ℕ → List ℕ → Schedule R → Run (Bool × Schedule R)
  enter c id stack s = do
    s' ← put id (some (record c { status = running })) (record s { curco = some id; stack = stack })
    done (true, s')

  abbrev pub resume_at : Status → Co R → ℕ → Schedule R → Run (Bool × Schedule R)
  resume_at suspend c id s = enter c id (if s.pri_stack then s.stack else restored c s.stack) s
  resume_at ready c id s = enter c id s.stack s
  resume_at running c id s = done (false, s)
  resume_at dead c id s = done (false, s)

  abbrev pub resume_slot : Option (Co R) → ℕ → Schedule R → Run (Bool × Schedule R)
  resume_slot none id s = done (false, s)
  resume_slot (some c) id s = resume_at c.status c id s

  abbrev pub resume_from : Option ℕ → Option ℕ → Schedule R → Run (Bool × Schedule R)
  resume_from (some cur) id s = done (false, s)
  resume_from none none s = done (false, s)
  resume_from none (some id) s =
      if leb s.cap id then done (false, s) else resume_slot (slot id s) id s

  -- `none` is a negative id.
  unfoldable pub resume : Option ℕ → Schedule R → Run (Bool × Schedule R)
  resume id s = resume_from s.curco id s

  abbrev pub push_free : ℕ → Schedule R → Run (Schedule R)
  push_free id s = elim (svector_push_back id s.freeid) [
    | none ↦ fault
    | some v ↦ done (record s { freeid = v })
  ]

  -- `free(co)`, `_co[id] = 0`, `_freeid.push_back(id)`
  abbrev pub drop_co : ℕ → Schedule R → Run (Schedule R)
  drop_co id s = do s' ← put id none s; push_free id s'

  abbrev pub resumed_at : Status → ℕ → Schedule R → Run (Schedule R)
  resumed_at dead id s = do s' ← drop_co id s; done (record s' { curco = none })
  resumed_at ready id s = done (record s { curco = none })
  resumed_at running id s = done (record s { curco = none })
  resumed_at suspend id s = done (record s { curco = none })

  abbrev pub resumed_slot : Option (Co R) → ℕ → Schedule R → Run (Schedule R)
  resumed_slot none id s = fault
  resumed_slot (some c) id s = resumed_at c.status id s

  -- The end of `resume`, after the switch back.
  unfoldable pub resumed : ℕ → Schedule R → Run (Schedule R)
  resumed id s = resumed_slot (slot id s) id s

  -- `save_stack`, with `depth` bytes of the stack in use.
  abbrev pub save_stack : ℕ → List ℕ → Co R → Co R
  save_stack depth stack c = record c {
    size = depth;
    cap = if ltb c.cap depth then depth else c.cap;
    stack = some (
        memcpy (if ltb c.cap depth then replicate depth 0 else bytes c.stack) 0
          (drop (length stack - depth) stack));
  }

  abbrev pub yield_slot : Option (Co R) → ℕ → ℕ → Schedule R → Run (Schedule R)
  yield_slot none id depth s = fault
  yield_slot (some c) id depth s =
      if s.pri_stack
      then put id (some (record c { status = suspend })) s
      else if leb depth (length s.stack)
      then put id (some (record (save_stack depth s.stack c) { status = suspend })) s
      else fault

  -- The switch back to the thread goes on in `resumed`.
  abbrev pub yield_at : Option ℕ → ℕ → Schedule R → Run (Schedule R)
  yield_at none depth s = done s
  yield_at (some id) depth s = do s' ← yield_slot (slot id s) id depth s; resumed id s'

  unfoldable pub yield : ℕ → Schedule R → Run (Schedule R)
  unfolding resumed
  yield depth s = yield_at s.curco depth s

  abbrev pub dead_slot : Option (Co R) → ℕ → Schedule R → Run (Schedule R)
  dead_slot none id s = fault
  dead_slot (some c) id s = put id (some (record c { status = dead })) s

  -- The end of `pub_coroutine`, when the function of the coroutine has returned.
  abbrev pub finish_at : Option ℕ → Schedule R → Run (Schedule R)
  finish_at none s = fault
  finish_at (some id) s = do s' ← dead_slot (slot id s) id s; resumed id s'

  unfoldable pub finish : Schedule R → Run (Schedule R)
  unfolding resumed
  finish s = finish_at s.curco s

  abbrev pub destroy_slot : Option (Co R) → ℕ → Schedule R → Run (Schedule R)
  destroy_slot none id s = done s
  destroy_slot (some c) id s = drop_co id s

  abbrev pub destroy_at : Option ℕ → Schedule R → Run (Schedule R)
  destroy_at none s = done s
  destroy_at (some id) s =
      if same s.curco (some id)
      then done s
      else if ltb id s.cap
      then destroy_slot (slot id s) id s
      else done s

  unfoldable pub destroy : Option ℕ → Schedule R → Run (Schedule R)
  destroy id s = destroy_at id s
