-- ===== src/Synccall/Client/Answered.antt =====
-- A call from end to end: `ScClient::_Sync` (synccall/synccall_client.hpp) over `SyncConnector`
-- (netio/tconnector_impl.hpp) with `ScServer::OnReceiveData` (synccall/synccall_svr.hpp).
use netlib.Common.{
  ℕ, ◌+◌, ◌^◌, ◌≤◌, ◌<◌, ◌≡◌, refl, sym, ap, subst, ◌∙◌, true, Option, some, List, [], ◌∷◌, ◌++◌,
  arith, length, length-append, flatten, add32, if◌then◌else◌,
}
use netlib.Base.Buffer.{Buffer, clear, contents}
use netlib.Base.Buffer.Valid.{IsValid}
use netlib.Netio.Header.{hdrlen}
use netlib.Netio.Reader.Frames.{frame}
use netlib.Netio.Reader.Step.{Holds}
use netlib.Netio.Sync.{SyncConnector, max_msg, send, recv, is_started}
use netlib.Netio.Sync.Recv.{Idle, Replied, AllChunks, answers, recv-Replied}
use netlib.Netio.Sync.Send.{Takes, counts, Delivered, send-Delivered}
use netlib.Synccall.Rpc.{fill_request, check_reply, Handler, on_receive_data, twoway_type}
use netlib.Synccall.Rpc.Match.{
  Answers, head_bytes, length-head_bytes, contents-fill_request, check_reply-fill_request,
}
use netlib.Synccall.Client.{
  ScClient, success, Try, null, live, after_recv, read_reply, after_send, exchange, if_connected,
  round, reconnect, is_connected, socket_connected, Called, returned, next_round, rounds, sync,
  sync_call,
}

-- The system takes the whole request, and the reply arrives in some chunks.
pub record Smooth (t : Try) (request reply : List ℕ) : Type 0 where
  pub takes : List ℕ
  pub more_sends : List (Option ℕ)
  pub sends_are : t.sends ≡ counts takes ++ more_sends
  pub taken : Takes takes (hdrlen + length request)
  pub stamp : ℕ
  pub chunks : List (List ℕ)
  pub more_recvs : List (Option (List ℕ))
  pub recvs_are : t.recvs ≡ answers chunks ++ more_recvs
  pub sized : AllChunks chunks
  pub arrives : flatten chunks ≡ frame (stamp, reply)

-- What the client sends in its next request.
abbrev pub request_of : ℕ → List ℕ → ScClient → List ℕ
request_of msg_type msg c = contents (fill_request twoway_type msg_type msg c.base).request

-- The call succeeds with this answer; the connection is between two messages, and the wire has
-- the framed request more.
pub record Answered (answer : List ℕ) (request : List ℕ) (t : Try) (k : SyncConnector) (e : Called)
    : Type 0 where
  pub after : ScClient
  pub reply : Buffer
  pub connector : SyncConnector
  pub runs : e ≡ returned success after (live reply)
  pub answered : contents reply ≡ answer
  pub kept : after.socket ≡ some connector
  pub wired : connector.wire ≡ k.wire ++ frame (t.timestamp, request)

module _ (h : Handler) (answer : ℕ → List ℕ → List ℕ) (first second : Try) (msg_type : ℕ)
    (msg : List ℕ) (c : ScClient) (k : SyncConnector) (info b : Buffer) (reply : List ℕ)
    (answering : Answers h answer) (valid : IsValid c.base.request)
    (small : length msg + 12 ≤ max_msg) (type_small : msg_type < 2 ^ 32)
    (short : length reply ≤ max_msg) (connected : c.socket ≡ some k) (idle : Idle k)
    (sndvalid : IsValid k.sndbuffer) (info_valid : IsValid info) (b_valid : IsValid b)
    (reaches : contents b ≡ request_of msg_type msg c)
    (replies : (on_receive_data (some h) info b).sent ≡ some reply)
    (smooth : Smooth first (request_of msg_type msg c) reply) where
  abbrev asking : ScClient
  asking = record c { base = fill_request twoway_type msg_type msg c.base }

  length-request : length (request_of msg_type msg c) ≡ 12 + length msg
  length-request =
      ap length (contents-fill_request twoway_type msg_type msg c.base valid (omega (arith, small)))
      ∙ length-append (head_bytes twoway_type msg_type (add32 c.base.packidx 1)) msg
      ∙ omega (arith, length-head_bytes twoway_type msg_type (add32 c.base.packidx 1))

  delivered :
      Delivered
        (frame (first.timestamp, request_of msg_type msg c))
        k
        (send first.timestamp (request_of msg_type msg c) first.sends k)
  delivered =
      subst
        (λ os.
          Delivered (frame (first.timestamp, request_of msg_type msg c)) k
            (send first.timestamp (request_of msg_type msg c) os k))
        (sym smooth.sends_are)
        (send-Delivered first.timestamp (request_of msg_type msg c) smooth.takes smooth.more_sends k
          idle.started sndvalid (omega (arith, length-request))
          (omega (arith, length-request, small)) smooth.taken)

  sent_Idle : Idle delivered.after
  sent_Idle = record {
    started = delivered.flag_kept ∙ idle.started;
    empty =
        subst (λ r. Holds (record r { msgbuffer = clear r.msgbuffer }) [])
          (sym delivered.reader_kept) idle.empty;
    used = delivered.readsize_kept ∙ idle.used;
    block = ap length delivered.block_kept ∙ idle.block;
  }

  got : Replied reply delivered.after.wire (recv first.recvs delivered.after)
  got =
      subst (λ os. Replied reply delivered.after.wire (recv os delivered.after))
        (sym smooth.recvs_are)
        (recv-Replied smooth.stamp reply short smooth.chunks smooth.more_recvs delivered.after
          sent_Idle smooth.sized smooth.arrives)

  checked :
      (left : Buffer) × (check_reply
          (fill_request twoway_type msg_type msg c.base)
          (some got.after.reader.msgbuffer)
        ≡ (some left, true))
      × (contents left ≡ answer msg_type msg)
  checked =
      check_reply-fill_request h answer c.base msg_type msg info b got.after.reader.msgbuffer
        answering valid (omega (arith, small)) type_small info_valid b_valid reaches got.valid
        (replies ∙ ap some (sym got.message))

  round-replied :
      round first twoway_type msg_type msg null c
      ≡ read_reply asking got.after (some checked.0, true)
  unfolding round is_connected
  round-replied =
      ap
        (λ s.
          if_connected first twoway_type msg_type msg null
            (if socket_connected s then (c, true) else reconnect first.connects c))
        connected
      ∙ ap
          (λ f.
            if_connected first twoway_type msg_type msg null
              (if is_started f then (c, true) else reconnect first.connects c))
          idle.started
      ∙ ap (exchange first twoway_type msg_type msg null c) connected
      ∙ ap (after_send first asking null) delivered.runs
      ∙ ap (after_recv asking) got.runs
      ∙ ap (read_reply asking got.after) checked.1

  -- A two-way call from end to end. Let the client have a started connection between two messages
  -- and valid buffers, the message have at most 0xFFFF - 20 bytes and the type be below 2 ^ 32;
  -- let the server, with valid buffers and a dealer that appends its answer, be given the bytes of
  -- the next request and send a reply of at most 0xFFFF - 8 bytes; let the system take the whole
  -- request in parts and deliver the framed reply in chunks of one to M_SOCKET_READ_SIZE bytes.
  -- Then SyncCall returns 0 and the answer to type and message is what is left to read of the
  -- reply, and the connector, which is kept, has the framed request more on its wire.
  pub sync_call-Answered :
      Answered
        (answer msg_type msg)
        (request_of msg_type msg c)
        first
        k
        (sync_call first second msg_type msg c)
  unfolding sync_call sync rounds
  sync_call-Answered = record {
    after = record asking {
      socket =
          some (record got.after { reader = record got.after.reader { msgbuffer = checked.0 } });
    };
    reply = checked.0;
    connector = record got.after { reader = record got.after.reader { msgbuffer = checked.0 } };
    runs = ap (next_round (rounds (second ∷ []) twoway_type msg_type msg)) round-replied;
    answered = checked.2;
    kept = refl;
    wired = got.wire_kept ∙ delivered.wired;
  }
