-- ===== src/Coroutine/Schedule/Switch.antt =====
-- The switches to and from a coroutine, in a table in order
-- (coroutine/co_linux_impl.hpp).
use netlib.Common.{
  ℕ, ◌-◌, ◌≤◌, ◌≡◌, ◌≢◌, refl, sym, ap, subst, ◌∙◌, Bool, Option, none, some, true, false, List,
  ltb, leb, if◌then◌else◌, get_or, set, length, length-memcpy, ==_refl, ne_==, Bool-cases, inl, inr,
  le→leb, take, drop, replicate, length-replicate,
}
use netlib.Base.Slist.{Run, done, fault, same, ◌>>=◌}
use netlib.Coroutine.Schedule.{
  Status, ready, running, suspend, dead, Co, Schedule, resume, yield, put, enter, resume_at,
  resume_slot, resume_from, slot_in, yield_at, yield_slot, resumed, resumed_at, resumed_slot,
  save_stack, restored, bytes,
}
use netlib.Coroutine.Schedule.Table.{
  IsScheduled, Sound, fits_status, live_slot, replace-IsScheduled, get_or-set,
}
use netlib.Coroutine.Schedule.Drop.{put-runs}
use netlib.Coroutine.Schedule.Steps.{resumes, yields, step, Next, stays, kept_slot}

module _ {R : Type 0} where
  weaken :
      {P Q : ℕ → Type 0} {s : Schedule R} {t : List (Option (Co R))} {m : Run (Schedule R)}
      → ((i : ℕ) → P i → Q i)
      → Next Q s t m
      → Next P s t m
  weaken sub n = record {
    after = n.after;
    table = n.table;
    ids = n.ids;
    runs = n.runs;
    valid = n.valid;
    stack_length = n.stack_length;
    pri = n.pri;
    kept = λ i d g off p. n.kept i d g off (sub i p);
  }

  pub slot_found :
      (s : Schedule R) (t : List (Option (Co R))) (id : ℕ) (x : Option (Co R))
      → s.co ≡ some t
      → get_or t id none ≡ x
      → slot_in s.co id ≡ x
  slot_found s t id x e h = ap (λ q. slot_in q id) e ∙ h

  module _ (s : Schedule R) (t : List (Option (Co R))) (ids : List ℕ)
      (w : IsScheduled s t ids) where
    -- The switch to the coroutine `id`, with this stack.
    entered :
        (id : ℕ) (c : Co R) (k : List ℕ)
        → s.curco ≡ none
        → get_or t id none ≡ some c
        → length k ≡ length s.stack
        → Next (λ i. some id ≢ some i) s t (enter c id k s >>= λ p. done p.1)
    entered id c k cur h len = record {
      after = record s {
        co = some (set t id (some (record c { status = running })));
        curco = some id;
        stack = k;
      };
      table = set t id (some (record c { status = running }));
      ids = ids;
      runs =
          ap
            (λ (m : Run (Schedule R)).
              (m >>= λ s'. let q : Run (Bool × Schedule R) = done (true, s') in q) >>= λ p.
              done p.1)
            (put-runs (record s { curco = some id; stack = k }) t id
              (some (record c { status = running })) w.table (live_slot w id c h).1);
      valid =
          replace-IsScheduled w id c (record c { status = running }) (some id) k h
            (w.states id c h).0 (ap (λ b. fits_status b running) (==_refl id))
            (λ j ne. ne_== id j ne ∙ sym (ap (λ q. same q (some j)) cur)) (λ j e. cc);
      stack_length = len;
      pri = refl;
      kept = λ i d g off p. kept_slot t id i _ d (live_slot w id c h).1 (λ e. p (ap some e)) g;
    }

    -- The switch back: the slot of the current coroutine is changed.
    left :
        (id : ℕ) (c c' : Co R)
        → s.curco ≡ some id
        → get_or t id none ≡ some c
        → Sound c' id
        → c'.status ≡ suspend
        → (n : Next (λ i. Unit) s t (put id (some c') s >>= resumed id)) × (get_or n.table id none
            ≡ some c')
          × (n.after.curco ≡ none)
    unfolding resumed
    left id c c' cur h own sus =
        let lt = (live_slot w id c h).1 in
        (
          record {
            after = record s { co = some (set t id (some c')); curco = none };
            table = set t id (some c');
            ids = ids;
            runs =
                ap (λ m. m >>= resumed id) (put-runs s t id (some c') w.table lt)
                ∙ ap (λ x. resumed_slot x id (record s { co = some (set t id (some c')) }))
                    (get_or-set t id id (some c') none lt
                      ∙ ap (λ b. if b then some c' else get_or t id none) (==_refl id))
                ∙ ap (λ x. resumed_at x id (record s { co = some (set t id (some c')) })) sus;
            valid =
                replace-IsScheduled w id c c' none s.stack h own (ap (λ x. fits_status false x) sus)
                  (λ j ne. sym (ap (λ q. same q (some j)) cur ∙ ne_== id j ne)) (λ j e. cc);
            stack_length = refl;
            pri = refl;
            kept = λ i d g off p. kept_slot t id i (some c') d lt (λ e. off (cur ∙ ap some e)) g;
          },
          get_or-set t id id (some c') none lt
              ∙ ap (λ b. if b then some c' else get_or t id none) (==_refl id),
          refl,
        )

    resumes-status :
        (P : ℕ → Type 0) (id : ℕ) (c : Co R) (st : Status)
        → s.curco ≡ none
        → get_or t id none ≡ some c
        → ((i : ℕ) → P i → some id ≢ some i)
        → Next P s t (resume_at st c id s >>= λ p. done p.1)
    resumes-status P id c ready cur h sub = weaken sub (entered id c s.stack cur h refl)
    resumes-status P id c suspend cur h sub =
        weaken sub (entered id c (if s.pri_stack then s.stack else restored c s.stack) cur h len)
      where
        len : length (if s.pri_stack then s.stack else restored c s.stack) ≡ length s.stack
        len = elim (Bool-cases s.pri_stack) [
          | inl e ↦ ap (λ b. length (if b then s.stack else restored c s.stack)) e
          | inr e ↦
              ap (λ b. length (if b then s.stack else restored c s.stack)) e
              ∙ length-memcpy s.stack (length s.stack - c.size) (take c.size (bytes c.stack))
        ]
    resumes-status P id c running cur h sub = stays P w refl
    resumes-status P id c dead cur h sub = stays P w refl

    resumes-slot :
        (P : ℕ → Type 0) (id : ℕ) (x : Option (Co R))
        → s.curco ≡ none
        → get_or t id none ≡ x
        → ((i : ℕ) → P i → some id ≢ some i)
        → Next P s t (resume_slot x id s >>= λ p. done p.1)
    resumes-slot P id none cur h sub = stays P w refl
    resumes-slot P id (some c) cur h sub = resumes-status P id c c.status cur h sub

    resumes-cases :
        (cur id : Option ℕ)
        → s.curco ≡ cur
        → Next (λ i. id ≢ some i) s t (resume_from cur id s >>= λ p. done p.1)
    resumes-cases (some j) id e = stays _ w refl
    resumes-cases none none e = stays _ w refl
    resumes-cases none (some id) e = elim (Bool-cases (leb s.cap id)) [
      | inl out ↦ stays _ w (rw out refl)
      | inr inside ↦
          subst (λ m. Next (λ i. some id ≢ some i) s t m)
            (sym (
              ap
                (λ b.
                  (if b then done (false, s) else resume_slot (slot_in s.co id) id s)
                  >>= λ (p : Bool × Schedule R). done p.1)
                inside
              ∙ ap (λ x. resume_slot x id s >>= λ p. done p.1)
                  (slot_found s t id (get_or t id none) w.table refl)))
            (resumes-slot (λ i. some id ≢ some i) id (get_or t id none) e refl (λ i p. p))
    ]

  pub resumes-Next :
      (id : Option ℕ) (s : Schedule R) (t : List (Option (Co R))) (ids : List ℕ)
      → IsScheduled s t ids
      → Next (λ i. id ≢ some i) s t (step (resumes id) s)
  unfolding step resume
  resumes-Next id s t ids w = resumes-cases s t ids w s.curco id refl

  -- The stack that is saved has the capacity that is noted.
  save_stack_block :
      (d : ℕ) (stack : List ℕ) (c : Co R)
      → length (bytes c.stack) ≡ c.cap
      → length (bytes (save_stack d stack c).stack) ≡ (save_stack d stack c).cap
  save_stack_block d stack c e =
      length-memcpy (if ltb c.cap d then replicate d 0 else bytes c.stack) 0
        (drop (length stack - d) stack)
      ∙ block (ltb c.cap d)
    where
      block :
          (b : Bool)
          → length (if b then replicate d 0 else bytes c.stack) ≡ (if b then d else c.cap)
      block true = length-replicate d 0
      block false = e

  -- The stack of the current coroutine is saved when it yields.
  pub yields-shared :
      (d : ℕ) (s : Schedule R) (t : List (Option (Co R))) (ids : List ℕ) (id : ℕ) (c : Co R)
      → IsScheduled s t ids
      → d ≤ length s.stack
      → s.curco ≡ some id
      → get_or t id none ≡ some c
      → s.pri_stack ≡ false
      → (n : Next (λ i. Unit) s t (yield_at (some id) d s)) × (get_or n.table id none
          ≡ some (record (save_stack d s.stack c) { status = suspend }))
        × (n.after.curco ≡ none)
  yields-shared d s t ids id c w le e h shared =
      let own = (w.states id c h).0 in
      subst
        (λ m.
          (n : Next (λ i. Unit) s t m) × (get_or n.table id none
            ≡ some (record (save_stack d s.stack c) { status = suspend }))
          × (n.after.curco ≡ none))
        (sym (
          ap (λ x. yield_slot x id d s >>= resumed id) (slot_found s t id (some c) w.table h)
          ∙ ap
              (λ b.
                (if b then put id (some (record c { status = suspend })) s else rest)
                >>= resumed id)
              shared
          ∙ ap (λ b. (if b then save else fault) >>= resumed id) (le→leb d (length s.stack) le)))
        (left s t ids w id c (record (save_stack d s.stack c) { status = suspend }) e h
          (own.0, save_stack_block d s.stack c own.1) refl)
    where
      save : Run (Schedule R)
      save = put id (some (record (save_stack d s.stack c) { status = suspend })) s

      rest : Run (Schedule R)
      rest = if leb d (length s.stack) then save else fault

  yields-cases :
      (d : ℕ) (s : Schedule R) (t : List (Option (Co R))) (ids : List ℕ) (cur : Option ℕ)
      → IsScheduled s t ids
      → d ≤ length s.stack
      → s.curco ≡ cur
      → Next (λ i. Unit) s t (yield_at cur d s)
  yields-cases d s t ids none w le e = stays _ w refl
  yields-cases d s t ids (some id) w le e =
      let (c, h) = w.current id e in
      let own = (w.states id c h).0 in
      elim (Bool-cases s.pri_stack) [
        | inl pri ↦
            subst (λ m. Next (λ i. Unit) s t m)
              (sym (
                ap (λ x. yield_slot x id d s >>= resumed id) (slot_found s t id (some c) w.table h)
                ∙ ap
                    (λ b.
                      (if b then put id (some (record c { status = suspend })) s else rest id c)
                      >>= resumed id)
                    pri))
              (left s t ids w id c (record c { status = suspend }) e h own refl).0
        | inr shared ↦ (yields-shared d s t ids id c w le e h shared).0
      ]
    where
      rest : ℕ → Co R → Run (Schedule R)
      rest id c =
          if leb d (length s.stack)
          then put id (some (record (save_stack d s.stack c) { status = suspend })) s
          else fault

  pub yields-Next :
      (d : ℕ) (s : Schedule R) (t : List (Option (Co R))) (ids : List ℕ)
      → IsScheduled s t ids
      → d ≤ length s.stack
      → Next (λ i. Unit) s t (step (yields d) s)
  unfolding step yield
  yields-Next d s t ids w le = yields-cases d s t ids s.curco w le refl
