-- ===== src/Synccall/CoClient/Ended.antt =====
-- `CoScClient::_Sync` (synccall/synccall_coclient.hpp): how often it waits, and what its result
-- says of the client.
use netlib.Common.{
  ℕ, suc, ◌<◌, ◌≡◌, refl, Bool, true, false, Option, none, some, List, [], ◌∷◌, arith, length,
  if◌then◌else◌, ==_refl,
}
use netlib.Base.Buffer.{Buffer}
use netlib.Synccall.Rpc.{check_reply}
use netlib.Synccall.Client.{Code, success, connect_invalid, other_error}
use netlib.Synccall.CoClient.{
  CoScClient, Attempt, set_connector, register, close_at, close_co, make, linked, reconnect_co,
  is_connected_co, ask, enter, if_linked, round_co, Round, yields, again, CoCall, waiting, returned,
  after_round, rounds_co, sync_co, read_reply_co, resumed_co,
}

-- With fewer than `n` rounds left it waits on the connector of the client; or it has returned 0
-- with a reply that `_CheckReply` has accepted; or another code, with no reply and no connector.
abbrev pub Ended : ℕ → CoCall → Type 0
Ended n (waiting k ts c) = (length ts < n) × (c.socket ≡ some k)
Ended n (returned success c none) = ⊥
Ended n (returned success c (some b)) =
    ((reply : Buffer) × (check_reply c.base (some reply) ≡ (some b, true)))
    × ((k : ℕ) × (c.socket ≡ some k) × ((c.connectors k).info.buffer ≡ b))
Ended n (returned connect_invalid c r) = (r ≡ none) × (c.socket ≡ none)
Ended n (returned other_error c r) = (r ≡ none) × (c.socket ≡ none)

abbrev RoundEnds : Round → Type 0
RoundEnds (yields k c) = c.socket ≡ some k
RoundEnds (again success c) = ⊥
RoundEnds (again connect_invalid c) = c.socket ≡ none
RoundEnds (again other_error c) = c.socket ≡ none

close_at-none : (s : Option ℕ) (c : CoScClient) → c.socket ≡ s → (close_at s c).socket ≡ none
close_at-none none c e = e
close_at-none (some k) c e = refl

close_co-none : (c : CoScClient) → (close_co c).socket ≡ none
unfolding close_co
close_co-none c = close_at-none c.socket c refl

module _ (thr co : ℕ) (msg_type : ℕ) (msg : List ℕ) where
  enter-RoundEnds :
      (t : Attempt) (s : Option ℕ) (c : CoScClient)
      → c.socket ≡ s
      → RoundEnds (enter t thr co msg_type msg s c)
  enter-RoundEnds t none c e = e
  enter-RoundEnds t (some k) c e =
      either (c.connectors k).info.valid
        (yields k (ask t k msg_type msg (set_connector k (register thr co (c.connectors k)) c)))
        (again other_error (close_co c)) e (close_co-none c)
    where
      either :
          (b : Bool) (r r' : Round) → RoundEnds r → RoundEnds r' → RoundEnds (if b then r else r')
      either true r r' h h' = h
      either false r r' h h' = h'

  -- A client that is not linked has no connector.
  abbrev Linked : CoScClient × Bool → Type 0
  Linked (c, true) = Unit
  Linked (c, false) = c.socket ≡ none

  reconnect_co-Linked : (t : Attempt) (c : CoScClient) → Linked (reconnect_co t c)
  unfolding reconnect_co
  reconnect_co-Linked t c =
      either t.connects (linked t c.made (make t.fd c)) (close_co (make t.fd c))
        (close_co-none (make t.fd c))
    where
      either :
          (b : Bool) (d d' : CoScClient)
          → d'.socket ≡ none
          → Linked (if b then (d, true) else (d', false))
      either true d d' h = tt
      either false d d' h = h

  if_linked-RoundEnds :
      (t : Attempt) (p : CoScClient × Bool)
      → Linked p
      → RoundEnds (if_linked t thr co msg_type msg p)
  if_linked-RoundEnds t (c, true) h = enter-RoundEnds t c.socket c refl
  if_linked-RoundEnds t (c, false) h = h

  round_co-RoundEnds : (t : Attempt) (c : CoScClient) → RoundEnds (round_co t thr co msg_type msg c)
  unfolding round_co
  round_co-RoundEnds t c =
      if_linked-RoundEnds t (if is_connected_co c then (c, true) else reconnect_co t c)
        (either (is_connected_co c))
    where
      either : (b : Bool) → Linked (if b then (c, true) else reconnect_co t c)
      either true = tt
      either false = reconnect_co-Linked t c

  Ended-mono : (n : ℕ) (r : CoCall) → Ended n r → Ended (suc n) r
  Ended-mono n (waiting k ts c) (lt, e) = (omega arith, e)
  Ended-mono n (returned success c none) h = h
  Ended-mono n (returned success c (some b)) h = h
  Ended-mono n (returned connect_invalid c r) h = h
  Ended-mono n (returned other_error c r) h = h

  -- The rounds after one that ended in this way.
  abbrev Goes : List Attempt → Type 0
  Goes ts =
      (code : Code) (c : CoScClient)
      → RoundEnds (again code c)
      → Ended (length ts) (rounds_co ts thr co msg_type msg code c)

  after-Ended :
      (ts : List Attempt) (r : Round)
      → RoundEnds r
      → Goes ts
      → Ended (suc (length ts)) (after_round (rounds_co ts thr co msg_type msg) ts r)
  after-Ended ts (yields k c) h go = (omega arith, h)
  after-Ended ts (again code c) h go =
      Ended-mono (length ts) (rounds_co ts thr co msg_type msg code c) (go code c h)

  rounds_co-Goes : (ts : List Attempt) → Goes ts
  unfolding rounds_co
  rounds_co-Goes [] success c h = h
  rounds_co-Goes [] connect_invalid c h = (refl, h)
  rounds_co-Goes [] other_error c h = (refl, h)
  rounds_co-Goes (t ∷ ts) code c h =
      after-Ended ts (round_co t thr co msg_type msg c) (round_co-RoundEnds t c) (rounds_co-Goes ts)

  read_reply_co-Ended :
      (k : ℕ) (ts : List Attempt) (c : CoScClient) (reply : Buffer) (r : Option Buffer × Bool)
      → c.socket ≡ some k
      → check_reply c.base (some reply) ≡ r
      → Ended (length ts) (read_reply_co (rounds_co ts thr co msg_type msg) k c r)
  read_reply_co-Ended k ts c reply (some b, true) e checked =
      ((reply, checked), (k, e, rw (==_refl k) refl))
  read_reply_co-Ended k ts c reply (some b, false) e checked =
      rounds_co-Goes ts other_error (close_co c) (close_co-none c)
  read_reply_co-Ended k ts c reply (none, ok) e checked =
      rounds_co-Goes ts other_error (close_co c) (close_co-none c)

  -- Whatever the system answers, _Sync waits at most twice: after its start at most one round is
  -- left, and each time it is resumed, on the connector of the client, it has fewer rounds left or
  -- it returns. When it waits, it does so on the connector of the client. When it returns 0 there
  -- is a reply that _CheckReply has accepted, and it is in the buffer of the connector, which is
  -- kept; when it returns -2 or -3 there is no reply and the connector is gone.
  pub sync_co-Ended :
      (first second : Attempt) (c : CoScClient)
      → Ended 2 (sync_co first second thr co msg_type msg c)
        × ((k : ℕ) (ts : List Attempt) (c' : CoScClient)
            → c'.socket ≡ some k
            → Ended (length ts) (resumed_co k ts thr co msg_type msg c'))
  unfolding sync_co rounds_co resumed_co
  sync_co-Ended first second c = (
    after-Ended (second ∷ []) (round_co first thr co msg_type msg c) (round_co-RoundEnds first c)
        (rounds_co-Goes (second ∷ [])),
    λ k ts c' e.
        read_reply_co-Ended k ts c' (c'.connectors k).info.buffer
          (check_reply c'.base (some (c'.connectors k).info.buffer)) e refl,
  )
