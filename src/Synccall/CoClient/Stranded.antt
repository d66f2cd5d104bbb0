-- ===== src/Synccall/CoClient/Stranded.antt =====
-- Calls of `CoScClient` (synccall/synccall_coclient.hpp) that nothing answers.
use netlib.Common.{
  ℕ, ◌+◌, ◌^◌, ◌<◌, ◌≡◌, refl, ap, ◌∙◌, Bool, true, false, Bool-cases, inl, inr, none, some, List,
  [], ◌∷◌, arith, length, length-append, append-nil, ◌==◌, ==_refl, ne_==, ltb, lt→ltb, add32,
  if◌then◌else◌,
}
use netlib.Base.Buffer.{contents}
use netlib.Base.Buffer.Valid.{IsValid}
use netlib.Netio.Reader.{pack_size}
use netlib.Netio.Writer.{Socket, start, close, close_socket, is_start, connected, post_close, send}
use netlib.Synccall.Rpc.{fill_request, twoway_type}
use netlib.Synccall.Rpc.Match.{head_bytes, length-head_bytes, contents-fill_request}
use netlib.Synccall.Client.{other_error}
use netlib.Synccall.CoClient.Rounds.{round_co-yields}
use netlib.Synccall.CoClient.{
  TcpConnector, CoScClient, Attempt, update, set_connector, register, connected_at, is_connected_co,
  close_co, reconnect_co, ask, enter, if_linked, round_co, yields, again, waiting, after_round,
  rounds_co, sync_co, make, linked, on_disconnected,
}

-- `Send` of a message that is too long changes nothing.
send_long :
    (failed : Bool) (now : ℕ) (bs : List ℕ) (s : Socket)
    → pack_size < length bs
    → (send failed now bs s).0 ≡ s
unfolding send
send_long failed now bs s long =
    rw
      (
        ne_== (length bs) 0 (λ e. absurd (omega (arith, e, long))),
        lt→ltb pack_size (length bs) long,
      )
      refl

-- On a started and valid connector, _Sync of a message that is too long for a package, more than
-- M_SOCKET_PACK_SIZE - 12 bytes (and less than 2 ^ 32 - 2 ^ 13), waits for a reply although
-- nothing was sent: Send left the socket as it was.
pub sync_co-unsent :
    (first second : Attempt) (thr co t : ℕ) (msg : List ℕ) (c : CoScClient) (k : ℕ)
    → c.socket ≡ some k
    → is_start (c.connectors k).tcp.flag ≡ true
    → (c.connectors k).info.valid ≡ true
    → IsValid c.base.request
    → length msg + 2 ^ 13 < 2 ^ 32
    → pack_size < 12 + length msg
    → (c' : CoScClient) × (sync_co first second thr co t msg c ≡ waiting k (second ∷ []) c')
      × ((c'.connectors k).tcp ≡ (c.connectors k).tcp)
      × (c'.resumes ≡ c.resumes)
unfolding sync_co rounds_co
sync_co-unsent first second thr co t msg c k linked_to started usable valid small long =
    let request = contents (fill_request twoway_type t msg c.base).request in
    let n : length request ≡ 12 + length msg =
      ap length (contents-fill_request twoway_type t msg c.base valid small)
      ∙ length-append (head_bytes twoway_type t (add32 c.base.packidx 1)) msg
      ∙ omega (arith, length-head_bytes twoway_type t (add32 c.base.packidx 1)) in
    (
      ask first k t msg (set_connector k (register thr co (c.connectors k)) c),
      ap (after_round (rounds_co (second ∷ []) thr co t msg) (second ∷ []))
          (round_co-yields first thr co t msg c k linked_to started usable),
      rw (==_refl k)
          (send_long first.failed first.now request (c.connectors k).tcp (omega (arith, n))),
      refl,
    )

-- `Send` on a socket that is not started changes nothing.
send_closed :
    (failed : Bool) (now : ℕ) (bs : List ℕ) (s : Socket)
    → is_start s.flag ≡ false
    → (send failed now bs s).0 ≡ s
unfolding send
send_closed failed now bs s down = elim (Bool-cases (length bs == 0)) [
  | inl e ↦ rw e refl
  | inr e ↦ elim (Bool-cases (ltb pack_size (length bs))) [
    | inl long ↦ rw (e, long) refl
    | inr short ↦ rw (e, short, down) refl
  ]
]

update_self : (f : ℕ → TcpConnector) (k : ℕ) (v : TcpConnector) → update f k v k ≡ v
update_self f k v = rw (==_refl k) refl

module _ (first second : Attempt) (thr co t : ℕ) (msg : List ℕ) (c : CoScClient)
    (null : c.socket ≡ none) (up : first.connects ≡ true) (down : first.lost ≡ true) where
  -- What `_Reconnect` leaves.
  abbrev left : CoScClient
  left = linked (record first { lost = true }) c.made (make first.fd c)

  abbrev asks : CoScClient
  asks =
      ask first c.made t msg (set_connector c.made (register thr co (left.connectors c.made)) left)

  reconnect_co-left : reconnect_co first c ≡ (left, true)
  unfolding reconnect_co
  reconnect_co-left =
      ap
        (λ b.
          if b
          then (linked first c.made (make first.fd c), true)
          else (close_co (make first.fd c), false))
        up
      ∙ ap
          (λ b.
            let p : CoScClient × Bool =
              (linked (record first { lost = b }) c.made (make first.fd c), true) in
            p)
          down

  left-valid : (left.connectors c.made).info.valid ≡ true
  left-valid = rw (==_refl c.made) refl

  left-socket : left.socket ≡ some c.made
  unfolding on_disconnected
  left-socket = refl

  round-lost : round_co first thr co t msg c ≡ yields c.made asks
  unfolding round_co is_connected_co
  round-lost =
      ap
        (λ s.
          if_linked first thr co t msg
            (if connected_at s c then (c, true) else reconnect_co first c))
        null
      ∙ ap (if_linked first thr co t msg) reconnect_co-left
      ∙ ap (λ s. enter first thr co t msg s left) left-socket
      ∙ ap (λ v. if v then yields c.made asks else again other_error (close_co left)) left-valid

  abbrev closed : Socket
  closed = post_close (record connected { flag = start })

  left-closed : (left.connectors c.made).tcp ≡ closed
  unfolding on_disconnected
  left-closed = rw (==_refl c.made) refl

  asks-closed : (asks.connectors c.made).tcp ≡ closed
  unfolding post_close connected
  asks-closed =
      let sent : Socket → Socket = λ s.
        (send first.failed first.now (contents (fill_request twoway_type t msg left.base).request)
          s).0 in
      let reg = update left.connectors c.made (register thr co (left.connectors c.made)) in
      ap (λ n. n.tcp) (update_self reg c.made (record (reg c.made) { tcp = sent (reg c.made).tcp }))
      ∙ ap (λ n. sent n.tcp)
          (update_self left.connectors c.made (register thr co (left.connectors c.made)))
      ∙ ap sent left-closed
      ∙ send_closed first.failed first.now
          (contents (fill_request twoway_type t msg left.base).request) closed refl

  left-resumes : left.resumes ≡ c.resumes
  unfolding on_disconnected
  left-resumes = rw (==_refl c.made) (append-nil c.resumes)

  -- If a client without a connector connects in _Sync and the connection is lost, with its
  -- OnDisconnected, before _Reconnect marks it valid, then _Sync waits on this connector, which is
  -- closed and was asked to send nothing, and the pending calls of addResume are those from
  -- before.
  pub sync_co-lost :
      (c' : CoScClient) × (sync_co first second thr co t msg c ≡ waiting c.made (second ∷ []) c')
      × ((c'.connectors c.made).tcp.flag ≡ close)
      × ((c'.connectors c.made).tcp.requests ≡ close_socket ∷ [])
      × (c'.resumes ≡ c.resumes)
  unfolding sync_co rounds_co post_close connected
  sync_co-lost = (
    asks,
    ap (after_round (rounds_co (second ∷ []) thr co t msg) (second ∷ [])) round-lost,
    ap (λ s. s.flag) asks-closed,
    ap (λ s. s.requests) asks-closed,
    left-resumes,
  )
