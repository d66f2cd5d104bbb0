-- ===== src/Synccall/CoClient/Woken.antt =====
-- Where a coroutine that waits is registered, and how often it is to be resumed
-- (synccall/synccall_coclient.hpp, synccall/synccall_svr.hpp).
use netlib.Common.{
  ℕ, ◌-◌, ◌^◌, ◌≡◌, refl, sym, subst, inl, inr, Bool, true, false, Option, none, some, List, [],
  ◌∷◌, ◌==◌, ==_refl, if◌then◌else◌,
}
use netlib.Base.Buffer.{Buffer, read_u32, cut_data}
use netlib.Synccall.Rpc.{keepalive_ack_id}
use netlib.Synccall.CoClient.{
  CoScClient, Attempt, resume_if, reset_info, take_reply, on_disconnected, on_receive_reply,
  close_co, connect_co, connect_co_at, CoCall, waiting, returned, sync_co, resumed_co,
}
use netlib.Synccall.CoClient.Idle.{Idle, close_co-Idle, reconnect_co-Idle}
use netlib.Synccall.CoClient.Rounds.{CallOk, sync_co-CallOk, resumed_co-CallOk}
use netlib.Synccall.CoClient.Wakeful.{
  Move, connects, calls, closes, receives, disconnects, resumes, Pending, Caller, place, of_call,
  take_resume, if_free, move, moves, Wakeful, IsWakeful, Hands, hand_over,
}

module _ (thr co : ℕ) where
  disconnected-Wakeful :
      (at : Option ℕ) (k : ℕ) (c : CoScClient)
      → Wakeful thr co at c.connectors c.resumes
      → Wakeful thr co at (on_disconnected k c).connectors (on_disconnected k c).resumes
  unfolding on_disconnected
  disconnected-Wakeful at k c w =
      hand_over thr co at c.connectors c.resumes _ k
        (record (c.connectors k) { info = reset_info (c.connectors k).info }) refl
        (handed (c.connectors k).info.thr_id (c.connectors k).info.co_id) w
    where
      handed : (t : ℕ) (o : Option ℕ) → Hands thr co o t (resume_if t o)
      handed t none = tt
      handed t (some i) = refl

  received-Wakeful :
      (at : Option ℕ) (k : ℕ) (b : Buffer) (c : CoScClient)
      → Wakeful thr co at c.connectors c.resumes
      → Wakeful thr co at (on_receive_reply k b c).connectors (on_receive_reply k b c).resumes
  unfolding on_receive_reply
  received-Wakeful at k b c w = either ((read_u32 b 0).1 == keepalive_ack_id) _ _ w (
      hand_over thr co at c.connectors c.resumes
        (((c.connectors k).info.thr_id, (c.connectors k).info.co_id) ∷ []) k
        (record (c.connectors k) {
          info = take_reply (cut_data (read_u32 b 0).0 (2 ^ 32 - 4)) (c.connectors k).info;
        })
        refl (handed (c.connectors k).info.thr_id (c.connectors k).info.co_id) w)
    where
      handed : (t : ℕ) (o : Option ℕ) → Hands thr co o t ((t, o) ∷ [])
      handed t none = tt
      handed t (some i) = refl

      either :
          (q : Bool) (d d' : CoScClient)
          → Wakeful thr co at d.connectors d.resumes
          → Wakeful thr co at d'.connectors d'.resumes
          → Wakeful thr co at (if q then d else d').connectors (if q then d else d').resumes
      either true d d' h h' = h
      either false d d' h h' = h'

  of_call-IsWakeful :
      (t : ℕ) (msg : List ℕ) (r : CoCall)
      → CallOk thr co r
      → IsWakeful thr co (of_call thr co t msg r)
  of_call-IsWakeful t msg (waiting k ts c) h = inl h
  of_call-IsWakeful t msg (returned code c b) h = h

  connect_at-Idle :
      (s : Option ℕ) (t : Attempt) (c : CoScClient) → Idle c → Idle (connect_co_at s t c).0
  connect_at-Idle none t c h = reconnect_co-Idle t c h
  connect_at-Idle (some k) t c h = h

  -- A call of the coroutine, which is not made while it waits.
  free-IsWakeful :
      (s : Caller) (p : Option Pending) (s' : Caller)
      → s.pending ≡ p
      → (Idle s.shared → IsWakeful thr co s')
      → IsWakeful thr co s
      → IsWakeful thr co (if_free thr co p s s')
  free-IsWakeful s none s' e f w =
      f (subst (λ o. Wakeful thr co (place o) s.shared.connectors s.shared.resumes) e w)
  free-IsWakeful s (some p) s' e f w = w

  -- The thread takes a call of `addResume`.
  taken-IsWakeful :
      (ws : List (ℕ × Option ℕ)) (p : Option Pending) (c : CoScClient)
      → c.resumes ≡ ws
      → Wakeful thr co (place p) c.connectors ws
      → IsWakeful thr co (take_resume thr co ws (record { shared = c; pending = p }))
  taken-IsWakeful [] p c e w = subst (Wakeful thr co (place p) c.connectors) (sym e) w
  taken-IsWakeful ((t, none) ∷ ws) none c e (free, q) = (free, q)
  taken-IsWakeful ((t, none) ∷ ws) (some p) c e (inl (held, q)) = inl (held, q)
  taken-IsWakeful ((t, none) ∷ ws) (some p) c e (inr (free, q)) = inr (free, q)
  taken-IsWakeful ((t, some i) ∷ ws) none c e (free, q) = absurd q
  taken-IsWakeful ((t, some i) ∷ ws) (some p) c e (inl (held, q)) = absurd q
  taken-IsWakeful ((t, some i) ∷ ws) (some p) c e (inr (free, (et, ei, q))) =
      let popped = record c { resumes = ws } in
      rw (et, ei, ==_refl thr, ==_refl co)
        (of_call-IsWakeful p.msg_type p.msg (resumed_co p.at p.left thr co p.msg_type p.msg popped)
          (resumed_co-CallOk thr co p.at p.left p.msg_type p.msg popped (free, q)))

  move-IsWakeful : (m : Move) (s : Caller) → IsWakeful thr co s → IsWakeful thr co (move thr co m s)
  unfolding move connect_co
  move-IsWakeful (connects t) s w =
      free-IsWakeful s s.pending (record { shared = (connect_co t s.shared).0; pending = none })
        refl (connect_at-Idle s.shared.socket t s.shared) w
  move-IsWakeful (calls first second msg_type msg) s w =
      free-IsWakeful s s.pending
        (of_call thr co msg_type msg (sync_co first second thr co msg_type msg s.shared)) refl
        (λ h.
          of_call-IsWakeful msg_type msg _
            (sync_co-CallOk thr co first second msg_type msg s.shared h))
        w
  move-IsWakeful closes s w =
      free-IsWakeful s s.pending (record { shared = close_co s.shared; pending = none }) refl
        (close_co-Idle s.shared) w
  move-IsWakeful (receives k b) s w = received-Wakeful (place s.pending) k b s.shared w
  move-IsWakeful (disconnects k) s w = disconnected-Wakeful (place s.pending) k s.shared w
  move-IsWakeful resumes s w = taken-IsWakeful s.shared.resumes s.pending s.shared refl w

  -- Let one coroutine connect, call and close, not while it waits in a call, and let messages and
  -- ends of connections reach any of its connectors and its thread take the calls of addResume, in
  -- any order. If this held at first then it holds throughout: while a call waits, its coroutine
  -- is registered at the connector of the call, which is valid, and no addResume of it is pending,
  -- or it is registered nowhere and exactly one is pending, with its own thread; and when no call
  -- waits it is registered nowhere and none is pending. That an event comes at the connector is
  -- not stated: a connector whose connection was lost before it was marked valid counts as valid
  -- here, and gets none.
  pub moves-IsWakeful :
      (ms : List Move) (s : Caller) → IsWakeful thr co s → IsWakeful thr co (moves thr co ms s)
  unfolding moves
  moves-IsWakeful [] s w = w
  moves-IsWakeful (m ∷ ms) s w = moves-IsWakeful ms (move thr co m s) (move-IsWakeful m s w)
