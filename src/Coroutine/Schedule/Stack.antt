-- ===== src/Coroutine/Schedule/Stack.antt =====
-- The shared stack: what `save_stack` saves at a yield, `resume` puts back
-- (coroutine/co_linux_impl.hpp).
use netlib.Common.{
  ℕ, zero, suc, ◌+◌, ◌-◌, ◌*◌, ◌≤◌, ◌≡◌, ◌≢◌, refl, sym, ap, subst, ◌∙◌, Bool, Option, none, some,
  true, false, List, [], ◌∷◌, arith, if◌then◌else◌, get_or, set, length, memcpy, take, drop,
  replicate, length-drop, length-replicate, take-memcpy, ltb, lt→leb, Bool-cases, inl, inr, ◌⊎◌,
  ==_refl,
}
use netlib.Base.Slist.{Run, done, fault, ◌>>=◌, same}
use netlib.Base.Svector.{default_cap}
use netlib.Coroutine.Schedule.{
  Co, Schedule, running, suspend, resume, yield, yield_at, resume_from, resume_slot, resume_at,
  enter, save_stack, restored, bytes, slot_in,
}
use netlib.Coroutine.Schedule.Table.{IsScheduled, fits_status, live_slot}
use netlib.Coroutine.Schedule.Drop.{put-runs}
use netlib.Coroutine.Schedule.Steps.{Event, step, Sane, Spares, Next}
use netlib.Coroutine.Schedule.Switch.{yields-shared, slot_found}
use netlib.Coroutine.Schedule.Fresh.{step-IsScheduled}

drop-memcpy :
    (m : List ℕ) (i : ℕ) (bs : List ℕ) → i + length bs ≡ length m → drop i (memcpy m i bs) ≡ bs
drop-memcpy [] zero [] h = refl
drop-memcpy [] zero (b ∷ bs) h = absurd (omega (arith, h))
drop-memcpy [] (suc i) bs h = absurd (omega (arith, h))
drop-memcpy (x ∷ m) zero [] h = absurd (omega (arith, h))
drop-memcpy (x ∷ m) zero (b ∷ bs) h = ap (◌∷◌ b) (drop-memcpy m zero bs (omega (arith, h)))
drop-memcpy (x ∷ m) (suc i) bs h = drop-memcpy m i bs (omega (arith, h))

module _ {R : Type 0} where
  -- A run of calls, which ends well.
  unfoldable pub steps : List (Event R) → Schedule R → Run (Schedule R)
  unfolding step
  steps [] s = done s
  steps (e ∷ es) s = do s' ← step e s; steps es s'

  -- Each call is one that the code allows, and none of them names the coroutine `i`.
  abbrev pub Orderly : ℕ → List (Event R) → Schedule R → Type 0
  Orderly i [] s = Unit
  Orderly i (e ∷ es) s =
      Sane e s × Spares i e × ((s' : Schedule R) → step e s ≡ done s' → Orderly i es s')

  -- What was saved is the top of the stack.
  saved :
      (d : ℕ) (stack : List ℕ) (c : Co R)
      → d ≤ length stack
      → length (bytes c.stack) ≡ c.cap
      → take d (bytes (save_stack d stack c).stack) ≡ drop (length stack - d) stack
  saved d stack c le block =
      let len : length (drop (length stack - d) stack) ≡ d =
        omega (arith, length-drop (length stack - d) stack) in
      ap (λ k. take k (bytes (save_stack d stack c).stack))
        {y = 0 + length (drop (length stack - d) stack)} (omega (arith, len))
      ∙ take-memcpy (if ltb c.cap d then replicate d 0 else bytes c.stack) 0
          (drop (length stack - d) stack) (omega (arith, len, room (Bool-cases (ltb c.cap d))))
    where
      room :
          (ltb c.cap d ≡ true) ⊎ (ltb c.cap d ≡ false)
          → d ≤ length (if ltb c.cap d then replicate d 0 else bytes c.stack)
      room (inl e) = rw e (let l = length-replicate {A = ℕ} d 0 in omega (arith, l))
      room (inr e) = rw e (let b = block in ground arith)

  -- A suspended coroutine that no call names stays as it is.
  steps-kept :
      (es : List (Event R)) (i : ℕ) (c : Co R) (s : Schedule R) (t : List (Option (Co R)))
      (ids : List ℕ) (s' : Schedule R)
      → IsScheduled s t ids
      → get_or t i none ≡ some c
      → c.status ≡ suspend
      → Orderly i es s
      → steps es s ≡ done s'
      → (t' : List (Option (Co R))) × (ids' : List ℕ) × IsScheduled s' t' ids'
        × (get_or t' i none ≡ some c)
        × (length s'.stack ≡ length s.stack)
        × (s'.pri_stack ≡ s.pri_stack)
  unfolding steps
  steps-kept [] i c s t ids s' w h sus o e =
      let same_state : s ≡ s' = cc in
      subst
        (λ x.
          (t' : List (Option (Co R))) × (ids' : List ℕ) × IsScheduled x t' ids'
          × (get_or t' i none ≡ some c)
          × (length x.stack ≡ length s.stack)
          × (x.pri_stack ≡ s.pri_stack))
        same_state (t, ids, w, h, refl, refl)
  steps-kept (ev ∷ es) i c s t ids s' w h sus o e =
      follow (step-IsScheduled ev s t ids w o.0) (steps-kept es i c)
    where
      idle : s.curco ≢ some i
      idle q =
          let f = (w.states i c h).1 in
          let on : same s.curco (some i) ≡ true = ap (λ x. same x (some i)) q ∙ ==_refl i in
          let g : fits_status true suspend ≡ true =
            sym (ap (λ b. fits_status b suspend) on)
            ∙ sym (ap (λ x. fits_status (same s.curco (some i)) x) sus)
            ∙ f in
          cc

      follow :
          Next (λ j. Spares j ev) s t (step ev s)
            ⊎ ((step ev s ≡ fault) × (default_cap * 2 ≤ length ids))
          → ((s₁ : Schedule R) (t₁ : List (Option (Co R))) (ids₁ : List ℕ) (s₂ : Schedule R)
              → IsScheduled s₁ t₁ ids₁
              → get_or t₁ i none ≡ some c
              → c.status ≡ suspend
              → Orderly i es s₁
              → steps es s₁ ≡ done s₂
              → (t' : List (Option (Co R))) × (ids' : List ℕ) × IsScheduled s₂ t' ids'
                × (get_or t' i none ≡ some c)
                × (length s₂.stack ≡ length s₁.stack)
                × (s₂.pri_stack ≡ s₁.pri_stack))
          → (t' : List (Option (Co R))) × (ids' : List ℕ) × IsScheduled s' t' ids'
            × (get_or t' i none ≡ some c)
            × (length s'.stack ≡ length s.stack)
            × (s'.pri_stack ≡ s.pri_stack)
      follow (inl n) ih =
          let rest : steps es n.after ≡ done s' = sym (ap (λ m. m >>= steps es) n.runs) ∙ e in
          let (t', ids', w', h', l', p') =
            ih n.after n.table n.ids s' n.valid (n.kept i c h idle o.1) sus (o.2 n.after n.runs)
              rest in
          (t', ids', w', h', l' ∙ n.stack_length, p' ∙ n.pri)
      follow (inr (f, _)) ih =
          let bad : fault ≡ done s' = sym (ap (λ m. m >>= steps es) f) ∙ e in cc

  -- The switch to a suspended coroutine, when no other one runs.
  resume_suspended :
      (s : Schedule R) (t : List (Option (Co R))) (ids : List ℕ) (id : ℕ) (c : Co R)
      → IsScheduled s t ids
      → s.curco ≡ none
      → s.pri_stack ≡ false
      → get_or t id none ≡ some c
      → c.status ≡ suspend
      → resume (some id) s
        ≡ done (
          true,
          record s {
            co = some (set t id (some (record c { status = running })));
            curco = some id;
            stack = restored c s.stack;
          },
        )
  unfolding resume
  resume_suspended s t ids id c w cur shared h sus =
      let live = live_slot w id c h in
      ap (λ q. resume_from q (some id) s) cur
      ∙ ap (λ b. if b then done (false, s) else resume_slot (slot_in s.co id) id s)
          (lt→leb s.cap id (omega (arith, live.0, w.room)))
      ∙ ap (λ x. resume_slot x id s) (slot_found s t id (some c) w.table h)
      ∙ ap (λ x. resume_at x c id s) sus
      ∙ ap (λ b. enter c id (if b then s.stack else restored c s.stack) s) shared
      ∙ ap
          (λ (m : Run (Schedule R)).
            m >>= λ s'. let q : Run (Bool × Schedule R) = done (true, s') in q)
          (put-runs (record s { curco = some id; stack = restored c s.stack }) t id
            (some (record c { status = running })) w.table live.1)

  -- On the shared stack: when a coroutine yields, any calls follow that go well and do not name
  -- it, and it is resumed while no other one runs, then it runs again and finds the part of the
  -- stack it had in use as it left it.
  pub resume-yield :
      (d : ℕ) (es : List (Event R)) (s : Schedule R) (t : List (Option (Co R))) (ids : List ℕ)
      (id : ℕ) (s₁ s₂ : Schedule R)
      → IsScheduled s t ids
      → s.curco ≡ some id
      → s.pri_stack ≡ false
      → d ≤ length s.stack
      → yield d s ≡ done s₁
      → Orderly id es s₁
      → steps es s₁ ≡ done s₂
      → s₂.curco ≡ none
      → (s₃ : Schedule R) × (resume (some id) s₂ ≡ done (true, s₃))
        × (s₃.curco ≡ some id)
        × (drop (length s.stack - d) s₃.stack ≡ drop (length s.stack - d) s.stack)
  unfolding yield
  resume-yield d es s t ids id s₁ s₂ w cur shared le y o run idle =
      let (c, h) = w.current id cur in
      let c' : Co R = record (save_stack d s.stack c) { status = suspend } in
      let (n, h', _) = yields-shared d s t ids id c w le cur h shared in
      let there : done n.after ≡ done s₁ = sym n.runs ∙ sym (ap (λ q. yield_at q d s) cur) ∙ y in
      let eq : s₁ ≡ n.after = cc in
      let (t₂, ids₂, w₂, h₂, len, pri) =
        steps-kept es id c' n.after n.table n.ids s₂ n.valid h' refl (subst (Orderly id es) eq o)
          (subst (λ x. steps es x ≡ done s₂) eq run) in
      let keep = saved d s.stack c le (w.states id c h).0.1 in
      let long : length s₂.stack ≡ length s.stack = len ∙ n.stack_length in
      let top : length (take d (bytes c'.stack)) ≡ d =
        ap length keep ∙ omega (arith, length-drop (length s.stack - d) s.stack) in
      (
        record s₂ {
          co = some (set t₂ id (some (record c' { status = running })));
          curco = some id;
          stack = restored c' s₂.stack;
        },
        resume_suspended s₂ t₂ ids₂ id c' w₂ idle (pri ∙ n.pri ∙ shared) h₂ refl,
        refl,
        ap (λ k. drop k (restored c' s₂.stack)) {x = length s.stack - d} {y = length s₂.stack - d}
              (omega (arith, long))
            ∙ drop-memcpy s₂.stack (length s₂.stack - d) (take d (bytes c'.stack))
                (omega (arith, long, top))
            ∙ keep,
      )
