-- ===== src/Synccall/CoClient/Replied.antt =====
-- A call of a coroutine from end to end: `CoScClient::_Sync` (synccall/synccall_coclient.hpp) with
-- both `OnReceiveData` of `ScServer` (synccall/synccall_svr.hpp).
use netlib.Common.{
  ℕ, ◌+◌, ◌-◌, ◌^◌, ◌<◌, ◌≡◌, refl, sym, ap, ◌∙◌, true, some, List, [], ◌∷◌, ◌++◌, arith, length,
  append_assoc, le_bytes, ◌==◌, ==_refl, add32, if◌then◌else◌,
}
use netlib.Base.Buffer.{Buffer, swap, read_u32, cut_data, contents}
use netlib.Base.Buffer.Valid.{IsValid}
use netlib.Netio.Writer.{is_start, send}
use netlib.Netio.HeartBeat.{on_receive_conn}
use netlib.Synccall.Rpc.{
  Handler, fill_request, check_reply, on_receive_data, twoway_type, keepalive_ack_id,
}
use netlib.Synccall.Rpc.Match.{
  Answers, head_bytes, word_back, on_receive_data-twoway, contents-fill_request,
  check_reply-fill_request,
}
use netlib.Synccall.Client.{success}
use netlib.Synccall.CoClient.{
  CoScClient, Attempt, update, set_connector, register, take_reply, on_receive_reply, ask, waiting,
  returned, after_round, rounds_co, sync_co, read_reply_co, resumed_co,
}
use netlib.Synccall.CoClient.Rounds.{round_co-yields}

-- A call that yields, is woken by its reply, and returns 0 with the answer.
pub record CoAnswered (answer : List ℕ) (k thr co t : ℕ) (msg : List ℕ) (first second : Attempt)
    (c : CoScClient) (r : Buffer) : Type 0 where
  pub yielded : CoScClient
  pub calls : sync_co first second thr co t msg c ≡ waiting k (second ∷ []) yielded
  pub sends :
      (yielded.connectors k).tcp
      ≡ (send first.failed first.now
          (contents (fill_request twoway_type t msg c.base).request)
          (c.connectors k).tcp).0
  pub woken : (on_receive_reply k r yielded).resumes ≡ (thr, some co) ∷ []
  pub after : CoScClient
  pub reply : Buffer
  pub runs :
      resumed_co k
        (second ∷ [])
        thr
        co
        t
        msg
        (record (on_receive_reply k r yielded) { resumes = [] })
      ≡ returned success after (some reply)
  pub answered : contents reply ≡ answer
  pub kept : after.socket ≡ some k

module _ (h : Handler) (answer : ℕ → List ℕ → List ℕ) (first second : Attempt) (thr co t : ℕ)
    (msg : List ℕ) (c : CoScClient) (k : ℕ) (info b r : Buffer) (answering : Answers h answer)
    (valid : IsValid c.base.request) (small : length msg + 2 ^ 13 < 2 ^ 32)
    (type_small : t < 2 ^ 32) (info_valid : IsValid info) (b_valid : IsValid b)
    (reaches : contents b ≡ contents (fill_request twoway_type t msg c.base).request)
    (r_valid : IsValid r) (replies : (on_receive_data (some h) info b).sent ≡ some (contents r))
    (linked_to : c.socket ≡ some k) (started : is_start (c.connectors k).tcp.flag ≡ true)
    (usable : (c.connectors k).info.valid ≡ true) (quiet : c.resumes ≡ []) where
  abbrev asked : CoScClient
  asked = ask first k t msg (set_connector k (register thr co (c.connectors k)) c)

  abbrev index : ℕ
  index = add32 c.base.packidx 1

  reply_bytes : contents r ≡ head_bytes twoway_type t index ++ answer t msg
  reply_bytes =
      let e =
        on_receive_data-twoway h answer info b t index msg answering info_valid b_valid type_small
          (omega arith) (reaches ∙ contents-fill_request twoway_type t msg c.base valid small) in
      cc (e, replies)

  first_word :
      ((read_u32 r 0).1 ≡ twoway_type)
      × (contents (cut_data (read_u32 r 0).0 (2 ^ 32 - 4)) ≡ contents r)
      × IsValid (cut_data (read_u32 r 0).0 (2 ^ 32 - 4))
  first_word =
      word_back twoway_type ((le_bytes t ++ le_bytes index) ++ answer t msg) r_valid (omega arith) (
        reply_bytes
        ∙ append_assoc (le_bytes twoway_type) (le_bytes t ++ le_bytes index) (answer t msg))

  abbrev got : Buffer
  got = cut_data (read_u32 r 0).0 (2 ^ 32 - 4)

  abbrev delivered : CoScClient
  delivered = record asked {
    heartmng = on_receive_conn (asked.connectors k).fd k asked.heartmng;
    connectors =
        update asked.connectors k
          (record (asked.connectors k) { info = take_reply got (asked.connectors k).info });
    resumes =
        asked.resumes ++ (((asked.connectors k).info.thr_id, (asked.connectors k).info.co_id) ∷ []);
  }

  receives_it : on_receive_reply k r asked ≡ delivered
  unfolding on_receive_reply
  receives_it =
      ap
        (λ m.
          if m == keepalive_ack_id
          then record asked { heartmng = on_receive_conn (asked.connectors k).fd k asked.heartmng }
          else delivered)
        first_word.0

  checked :
      (left : Buffer) × (check_reply (fill_request twoway_type t msg c.base) (some got)
        ≡ (some left, true))
      × (contents left ≡ answer t msg)
  checked =
      check_reply-fill_request h answer c.base t msg info b got answering valid small type_small
        info_valid b_valid reaches first_word.2 (replies ∙ ap some (sym first_word.1))

  woken_by : delivered.resumes ≡ (thr, some co) ∷ []
  woken_by = rw (quiet, ==_refl k) refl

  buffer-delivered : (delivered.connectors k).info.buffer ≡ got
  unfolding swap
  buffer-delivered = rw (==_refl k) refl

  abbrev popped : CoScClient
  popped = record delivered { resumes = [] }

  -- A call of a coroutine from end to end. Let the client have a started and valid connector, a
  -- valid request buffer, and no pending addResume; let the message have less than 2 ^ 32 - 2 ^ 13
  -- bytes and the type be below 2 ^ 32; let the server, with valid buffers and a dealer that
  -- appends its answer, be given the bytes of the next request and send a reply, and let the
  -- connector be given this reply in a valid buffer. Then _Sync yields after it gave the request
  -- to Send of the connector, OnReceiveData calls addResume once, for this coroutine and its
  -- thread, and _Sync, when it is resumed, returns 0, keeps the connector, and the answer to type
  -- and message is what is left to read of the reply.
  pub sync_co-CoAnswered : CoAnswered (answer t msg) k thr co t msg first second c r
  unfolding sync_co rounds_co resumed_co
  sync_co-CoAnswered = record {
    yielded = asked;
    calls =
        ap (after_round (rounds_co (second ∷ []) thr co t msg) (second ∷ []))
          (round_co-yields first thr co t msg c k linked_to started usable);
    sends = rw (==_refl k) refl;
    woken = ap (λ d. d.resumes) receives_it ∙ woken_by;
    after =
        set_connector k
          (record (popped.connectors k) {
            info = record (popped.connectors k).info { buffer = checked.0 };
          })
          popped;
    reply = checked.0;
    runs =
        ap (λ d. resumed_co k (second ∷ []) thr co t msg (record d { resumes = [] })) receives_it
        ∙ ap
            (λ q.
              read_reply_co (rounds_co (second ∷ []) thr co t msg) k popped
                (check_reply (fill_request twoway_type t msg c.base) (some q)))
            buffer-delivered
        ∙ ap (read_reply_co (rounds_co (second ∷ []) thr co t msg) k popped) checked.1;
    answered = checked.2;
    kept = linked_to;
  }
