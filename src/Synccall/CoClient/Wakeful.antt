-- ===== src/Synccall/CoClient/Wakeful.antt =====
-- A coroutine that calls, and the callbacks of its connectors on other threads
-- (synccall/synccall_coclient.hpp, synccall/synccall_svr.hpp), one after the other.
use netlib.Common.{
  ℕ, ◌≡◌, ◌≢◌, refl, sym, ap, subst, ◌∙◌, ◌⊎◌, inl, inr, true, Option, none, some, List, [], ◌∷◌,
  ◌++◌, ◌==◌, ==_refl, ne_==, ==_iff, if◌then◌else◌, ◌&&◌, Bool-cases,
}
use netlib.Base.Buffer.{Buffer}
use netlib.Synccall.CoClient.{
  TcpConnector, CoScClient, Attempt, update, on_disconnected, on_receive_reply, close_co,
  connect_co, CoCall, waiting, returned, sync_co, resumed_co,
}
use netlib.Synccall.CoClient.Idle.{Free, Quiet, Quiet-append, update_at, Free-update}
use netlib.Synccall.CoClient.Rounds.{Held}

-- What happens: the coroutine connects, calls or closes; a message arrives at a connector or its
-- connection ends; and the thread takes the oldest of the calls of `addResume`.
pub data Move : Type 0 where
  connects : Attempt → Move
  calls : Attempt → Attempt → ℕ → List ℕ → Move
  closes : Move
  receives : ℕ → Buffer → Move
  disconnects : ℕ → Move
  resumes : Move

-- A call that waits: its connector, the rounds left, and the message.
pub record Pending : Type 0 where
  pub at : ℕ
  pub left : List Attempt
  pub msg_type : ℕ
  pub msg : List ℕ

-- `shared` is the client with all that other threads see of it.
pub record Caller : Type 0 where
  pub shared : CoScClient
  pub pending : Option Pending

abbrev pub place : Option Pending → Option ℕ
place none = none
place (some p) = some p.at

module _ (thr co : ℕ) where
  abbrev pub of_call : ℕ → List ℕ → CoCall → Caller
  of_call msg_type msg (waiting k ts c) = record {
    shared = c;
    pending = some (record { at = k; left = ts; msg_type = msg_type; msg = msg });
  }
  of_call msg_type msg (returned code c b) = record { shared = c; pending = none }

  abbrev pub resume_call : Option Pending → CoScClient → Caller
  resume_call none c = record { shared = c; pending = none }
  resume_call (some p) c =
      of_call p.msg_type p.msg (resumed_co p.at p.left thr co p.msg_type p.msg c)

  -- `Coroutine::resume` of -1 does nothing.
  abbrev pub take_resume : List (ℕ × Option ℕ) → Caller → Caller
  take_resume [] s = s
  take_resume ((t, none) ∷ ws) s = record s { shared = record s.shared { resumes = ws } }
  take_resume ((t, some i) ∷ ws) s =
      let popped = record s.shared { resumes = ws } in
      if t == thr && i == co then resume_call s.pending popped else record s { shared = popped }

  -- A coroutine that waits makes no calls.
  abbrev pub if_free : Option Pending → Caller → Caller → Caller
  if_free none s s' = s'
  if_free (some p) s s' = s

  unfoldable pub move : Move → Caller → Caller
  unfolding resumed_co
  move (connects t) s =
      if_free s.pending s (record { shared = (connect_co t s.shared).0; pending = none })
  move (calls first second msg_type msg) s =
      if_free s.pending s (of_call msg_type msg (sync_co first second thr co msg_type msg s.shared))
  move closes s = if_free s.pending s (record { shared = close_co s.shared; pending = none })
  move (receives k b) s = record s { shared = on_receive_reply k b s.shared }
  move (disconnects k) s = record s { shared = on_disconnected k s.shared }
  move resumes s = take_resume s.shared.resumes s

  unfoldable pub moves : List Move → Caller → Caller
  unfolding move
  moves [] s = s
  moves (m ∷ ms) s = moves ms (move m s)

  -- The coroutine is to be resumed, once.
  abbrev pub Once : List (ℕ × Option ℕ) → Type 0
  Once [] = ⊥
  Once ((t, none) ∷ ws) = Once ws
  Once ((t, some i) ∷ ws) = (t ≡ thr) × (i ≡ co) × Quiet ws

  -- A call that waits is registered at its connector, or will be resumed once, and not both. When
  -- none waits nobody is registered and nobody will be resumed.
  abbrev pub Wakeful : Option ℕ → (ℕ → TcpConnector) → List (ℕ × Option ℕ) → Type 0
  Wakeful none f ws = Free f × Quiet ws
  Wakeful (some k) f ws = (Held thr co f k × Quiet ws) ⊎ (Free f × Once ws)

  abbrev pub IsWakeful : Caller → Type 0
  IsWakeful s = Wakeful (place s.pending) s.shared.connectors s.shared.resumes

  Once-append : (ws vs : List (ℕ × Option ℕ)) → Once ws → Quiet vs → Once (ws ++ vs)
  Once-append [] vs q q' = absurd q
  Once-append ((t, none) ∷ ws) vs q q' = Once-append ws vs q q'
  Once-append ((t, some i) ∷ ws) vs q q' = (q.0, q.1, Quiet-append ws vs q.2 q')

  append-Once : (ws vs : List (ℕ × Option ℕ)) → Quiet ws → Once vs → Once (ws ++ vs)
  append-Once [] vs q q' = q'
  append-Once ((t, none) ∷ ws) vs q q' = append-Once ws vs q q'
  append-Once ((t, some i) ∷ ws) vs q q' = absurd q

  -- What a callback adds to the calls of `addResume` for who is registered at its connector.
  abbrev pub Hands : Option ℕ → ℕ → List (ℕ × Option ℕ) → Type 0
  Hands none t vs = Quiet vs
  Hands (some i) t vs = vs ≡ (t, some i) ∷ []

  -- A callback that ends the registration at its connector hands it over.
  pub hand_over :
      (at : Option ℕ) (f : ℕ → TcpConnector) (ws vs : List (ℕ × Option ℕ)) (j : ℕ)
      (v : TcpConnector)
      → v.info.co_id ≡ none
      → Hands (f j).info.co_id (f j).info.thr_id vs
      → Wakeful at f ws
      → Wakeful at (update f j v) (ws ++ vs)
  hand_over none f ws vs j v e hands (free, q) = (
    Free-update f j v free e,
    Quiet-append ws vs q (subst (λ o. Hands o (f j).info.thr_id vs) (free j) hands),
  )
  hand_over (some k) f ws vs j v e hands (inr (free, q)) = inr (
    Free-update f j v free e,
    Once-append ws vs q (subst (λ o. Hands o (f j).info.thr_id vs) (free j) hands),
  )
  hand_over (some k) f ws vs j v e hands (inl (held, q)) = elim (Bool-cases (k == j)) [
    | inl same ↦
        let at : k ≡ j = (==_iff k j).0 same in
        let one : vs ≡ (thr, some co) ∷ [] =
          subst (λ o. Hands o (f j).info.thr_id vs)
            (subst (λ i. (f i).info.co_id ≡ some co) at held.id) hands
          ∙ ap (λ t. (t, some co) ∷ []) (subst (λ i. (f i).info.thr_id ≡ thr) at held.thread) in
        inr (
          λ i.
              update_at (λ n. n.info.co_id ≡ none) f j i v e
                (λ ne. held.others i (λ p. ne (sym at ∙ p))),
          append-Once ws vs q (subst Once (sym one) (refl, refl, tt)),
        )
    | inr other ↦
        let ne : k ≢ j = λ p. let e' : (k == j) ≡ true = rw p (==_refl j) in cc in
        let ne' : j ≢ k = λ p. ne (sym p) in
        inl (
          record {
            id = rw (ne_== j k ne') held.id;
            thread = rw (ne_== j k ne') held.thread;
            valid = rw (ne_== j k ne') held.valid;
            others = λ i p. update_at (λ n. n.info.co_id ≡ none) f j i v e (λ q. held.others i p);
          },
          Quiet-append ws vs q (subst (λ o. Hands o (f j).info.thr_id vs) (held.others j ne) hands),
        )
  ]
