-- ===== src/Synccall/CoClient/Rounds.antt =====
-- What the parts of `CoScClient::_Sync` (synccall/synccall_coclient.hpp) leave: a coroutine that is
-- registered at the connector it waits on, or nobody that waits.
use netlib.Common.{
  ℕ, ◌≡◌, ◌≢◌, refl, ap, ◌∙◌, Bool, true, false, Option, none, some, List, [], ◌∷◌, ne_==,
  if◌then◌else◌,
}
use netlib.Base.Buffer.{Buffer, contents}
use netlib.Netio.Writer.{send, is_start}
use netlib.Synccall.Rpc.{check_reply, fill_request, twoway_type}
use netlib.Synccall.Client.{Code, success, other_error}
use netlib.Synccall.CoClient.{
  TcpConnector, CoScClient, Attempt, update, set_connector, close_co, register, reconnect_co,
  is_connected_co, connected_at, ask, enter, if_linked, round_co, Round, yields, again, CoCall,
  waiting, returned, after_round, rounds_co, sync_co, read_reply_co, resumed_co,
}
use netlib.Synccall.CoClient.Idle.{
  Quiet, Idle, update_at, Free-update, close_co-Idle, reconnect_co-Idle,
}

module _ (thr co : ℕ) where
  -- The coroutine is registered at this connector, which is valid, and none at another one.
  pub record Held (f : ℕ → TcpConnector) (k : ℕ) : Type 0 where
    pub id : (f k).info.co_id ≡ some co
    pub thread : (f k).info.thr_id ≡ thr
    pub valid : (f k).info.valid ≡ true
    pub others : (j : ℕ) → k ≢ j → (f j).info.co_id ≡ none

  abbrev pub RoundOk : Round → Type 0
  RoundOk (yields k c) = Held c.connectors k × Quiet c.resumes
  RoundOk (again code c) = Idle c

  abbrev pub CallOk : CoCall → Type 0
  CallOk (waiting k ts c) = Held c.connectors k × Quiet c.resumes
  CallOk (returned code c b) = Idle c

  -- An update of the connector that leaves what is registered there.
  pub Held-update :
      (f : ℕ → TcpConnector) (k : ℕ) (v : TcpConnector)
      → (v.info.co_id ≡ some co)
      → (v.info.thr_id ≡ thr)
      → (v.info.valid ≡ true)
      → ((j : ℕ) → k ≢ j → (f j).info.co_id ≡ none)
      → Held (update f k v) k
  Held-update f k v i t ok o = record {
    id = update_at (λ n. n.info.co_id ≡ some co) f k k v i (λ ne. absurd (ne refl));
    thread = update_at (λ n. n.info.thr_id ≡ thr) f k k v t (λ ne. absurd (ne refl));
    valid = update_at (λ n. n.info.valid ≡ true) f k k v ok (λ ne. absurd (ne refl));
    others = λ j ne. rw (ne_== k j ne) (o j ne);
  }

  asked-Held :
      (t : Attempt) (k msg_type : ℕ) (msg : List ℕ) (c : CoScClient)
      → Held c.connectors k
      → Held (ask t k msg_type msg c).connectors k
  asked-Held t k msg_type msg c h =
      Held-update c.connectors k
        (record (c.connectors k) {
          tcp =
              (send t.failed t.now (contents (fill_request twoway_type msg_type msg c.base).request)
                (c.connectors k).tcp).0;
        })
        h.id h.thread h.valid h.others

  either-RoundOk :
      (b : Bool) (r r' : Round)
      → (b ≡ true → RoundOk r)
      → RoundOk r'
      → RoundOk (if b then r else r')
  either-RoundOk true r r' h h' = h refl
  either-RoundOk false r r' h h' = h'

  enter-RoundOk :
      (t : Attempt) (msg_type : ℕ) (msg : List ℕ) (s : Option ℕ) (c : CoScClient)
      → Idle c
      → RoundOk (enter t thr co msg_type msg s c)
  enter-RoundOk t msg_type msg none c h = h
  enter-RoundOk t msg_type msg (some k) c h =
      either-RoundOk (c.connectors k).info.valid
        (yields k (ask t k msg_type msg (set_connector k (register thr co (c.connectors k)) c)))
        (again other_error (close_co c))
        (λ ok. (
          asked-Held t k msg_type msg (set_connector k (register thr co (c.connectors k)) c) (
              Held-update c.connectors k (register thr co (c.connectors k)) refl refl ok
                (λ j ne. h.0 j)),
          h.1,
        ))
        (close_co-Idle c h)

  if_linked-RoundOk :
      (t : Attempt) (msg_type : ℕ) (msg : List ℕ) (p : CoScClient × Bool)
      → Idle p.0
      → RoundOk (if_linked t thr co msg_type msg p)
  if_linked-RoundOk t msg_type msg (c, true) h = enter-RoundOk t msg_type msg c.socket c h
  if_linked-RoundOk t msg_type msg (c, false) h = h

  linked_or-Idle :
      (b : Bool) (t : Attempt) (c : CoScClient)
      → Idle c
      → Idle (if b then (c, true) else reconnect_co t c).0
  linked_or-Idle true t c h = h
  linked_or-Idle false t c h = reconnect_co-Idle t c h

  pub round_co-RoundOk :
      (t : Attempt) (msg_type : ℕ) (msg : List ℕ) (c : CoScClient)
      → Idle c
      → RoundOk (round_co t thr co msg_type msg c)
  unfolding round_co
  round_co-RoundOk t msg_type msg c h =
      if_linked-RoundOk t msg_type msg (if is_connected_co c then (c, true) else reconnect_co t c)
        (linked_or-Idle (is_connected_co c) t c h)

  pub rounds_co-CallOk :
      (ts : List Attempt) (msg_type : ℕ) (msg : List ℕ) (code : Code) (c : CoScClient)
      → Idle c
      → CallOk (rounds_co ts thr co msg_type msg code c)
  unfolding rounds_co
  rounds_co-CallOk [] msg_type msg code c h = h
  rounds_co-CallOk (t ∷ ts) msg_type msg code c h =
      follow (round_co t thr co msg_type msg c) (round_co-RoundOk t msg_type msg c h)
        (rounds_co-CallOk ts msg_type msg)
    where
      follow :
          (r : Round)
          → RoundOk r
          → ((code : Code) (c : CoScClient)
              → Idle c
              → CallOk (rounds_co ts thr co msg_type msg code c))
          → CallOk (after_round (rounds_co ts thr co msg_type msg) ts r)
      follow (yields k c') w next = w
      follow (again code' c') w next = next code' c' w

  pub sync_co-CallOk :
      (first second : Attempt) (msg_type : ℕ) (msg : List ℕ) (c : CoScClient)
      → Idle c
      → CallOk (sync_co first second thr co msg_type msg c)
  unfolding sync_co
  sync_co-CallOk first second msg_type msg c h =
      rounds_co-CallOk (first ∷ second ∷ []) msg_type msg success c h

  read_reply_co-CallOk :
      (ts : List Attempt) (k msg_type : ℕ) (msg : List ℕ) (c : CoScClient)
      (r : Option Buffer × Bool)
      → Idle c
      → CallOk (read_reply_co (rounds_co ts thr co msg_type msg) k c r)
  read_reply_co-CallOk ts k msg_type msg c (some b, true) h =
      (Free-update c.connectors k _ h.0 (h.0 k), h.1)
  read_reply_co-CallOk ts k msg_type msg c (some b, false) h =
      rounds_co-CallOk ts msg_type msg other_error (close_co c) (close_co-Idle c h)
  read_reply_co-CallOk ts k msg_type msg c (none, checked) h =
      rounds_co-CallOk ts msg_type msg other_error (close_co c) (close_co-Idle c h)

  pub resumed_co-CallOk :
      (k : ℕ) (ts : List Attempt) (msg_type : ℕ) (msg : List ℕ) (c : CoScClient)
      → Idle c
      → CallOk (resumed_co k ts thr co msg_type msg c)
  unfolding resumed_co
  resumed_co-CallOk k ts msg_type msg c h =
      read_reply_co-CallOk ts k msg_type msg c
        (check_reply c.base (some (c.connectors k).info.buffer)) h

-- A round on a connector that is up and valid.
pub round_co-yields :
    (t : Attempt) (thr co msg_type : ℕ) (msg : List ℕ) (c : CoScClient) (k : ℕ)
    → c.socket ≡ some k
    → is_start (c.connectors k).tcp.flag ≡ true
    → (c.connectors k).info.valid ≡ true
    → round_co t thr co msg_type msg c
      ≡ yields k (ask t k msg_type msg (set_connector k (register thr co (c.connectors k)) c))
unfolding round_co is_connected_co
round_co-yields t thr co msg_type msg c k linked started usable =
    ap
      (λ s.
        if_linked t thr co msg_type msg (if connected_at s c then (c, true) else reconnect_co t c))
      linked
    ∙ ap (λ f. if_linked t thr co msg_type msg (if f then (c, true) else reconnect_co t c)) started
    ∙ ap (λ s. enter t thr co msg_type msg s c) linked
    ∙ ap
        (λ v.
          if v
          then yields k
              (ask t k msg_type msg (set_connector k (register thr co (c.connectors k)) c))
          else again other_error (close_co c))
        usable
