-- ===== src/Netio/Writer.antt =====
-- The sending side of `TcpBaseSocket` (netio/tsocket_impl.hpp): what `Send` queues, the one
-- asynchronous write that may be outstanding, and the close that waits for it. Each function here
-- runs under `_writer.lock`, so they are steps that do not overlap.
pub mod Valid
pub mod Try
pub mod Ops
pub mod Complete
pub mod Graceful
pub mod History
pub mod Requests
mod Tests
use netlib.Common.{
  ℕ, ◌*◌, ◌^◌, Bool, true, false, not, ◌&&◌, Option, none, some, List, [], ◌∷◌, ◌++◌, ltb, leb,
  ◌==◌, if◌then◌else◌, length, add32,
}
use netlib.Base.Buffer.{Buffer, new, clear, cut_data, length_of, write, swap, written, contents}
use netlib.Netio.Header.{hdrlen, sent_header}
use netlib.Netio.Reader.{pack_size}

-- E_STATE_START, E_STATE_STOP, E_STATE_CLOSE
pub data Flag : Type 0 where
  start stop close : Flag

abbrev pub is_start : Flag → Bool
is_start start = true
is_start _ = false

abbrev pub is_close : Flag → Bool
is_close close = true
is_close _ = false

-- What the socket asks of the service below it.
pub data Request : Type 0 where
  send_some : List ℕ → Request
  shutdown_wr : Request
  close_socket : Request

-- `_flag` and `_writer`, with the requests made so far, the latest first.
pub record Socket : Type 0 where
  pub flag : Flag
  pub writing : Bool
  pub msgbuffer1 : Buffer
  pub msgbuffer2 : Buffer
  pub requests : List Request

-- After `Init`.
unfoldable pub connected : Socket
connected = record {
  flag = start;
  writing = false;
  msgbuffer1 = new;
  msgbuffer2 = new;
  requests = [];
}

-- E_MAX_BUFFER_SIZE
abbrev pub max_buffer_size : ℕ
max_buffer_size = 1024 * 1024 * 3

abbrev pub request : Request → Socket → Socket
request q s = record s { requests = q ∷ s.requests }

-- `_Close`; `Close` and `_PostClose` are the same under the lock.
unfoldable pub post_close : Socket → Socket
post_close s =
    if is_close s.flag
    then s
    else if s.writing
    then record s { flag = stop }
    else request close_socket (record s { flag = close })

-- The first half of `_TrySendData`: an empty `msgbuffer1` takes over what is queued.
unfoldable pub refill : Socket → Socket
refill s =
    let (b1, b2) = swap (s.msgbuffer1, s.msgbuffer2) in
    let kept = if leb (1024 * 1024) b2.size then new else b2 in
    if length_of s.msgbuffer1 == 0 then record s { msgbuffer1 = b1; msgbuffer2 = clear kept } else s

-- The second half; `failed` is whether `AsyncSendSome` reports an error.
unfoldable pub post_send : Bool → Socket → Socket × Bool
post_send failed s =
    if ltb 0 (length_of s.msgbuffer1)
    then if failed
      then (post_close s, false)
      else (request (send_some (contents s.msgbuffer1)) (record s { writing = true }), true)
    else (s, false)

unfoldable pub try_send_data : Bool → Socket → Socket × Bool
try_send_data failed s = if s.writing then (s, true) else post_send failed (refill s)

-- What `Send` does once it has accepted the bytes.
unfoldable pub enqueue : Bool → List ℕ → Socket → Socket
enqueue failed bs s = (try_send_data failed (record s { msgbuffer2 = write s.msgbuffer2 bs })).0

-- `snd_len > M_SOCKET_PACK_SIZE` for an `int snd_len`: a length of 2 ^ 31 or more is negative.
abbrev pub too_big : ℕ → Bool
too_big n = ltb pack_size n && ltb n (2 ^ 31)

-- `Send(buffer)`; `none` is the null pointer.
unfoldable pub send_buffer : Bool → Option Buffer → Socket → Socket × Bool
send_buffer failed none s = (s, false)
send_buffer failed (some b) s =
    if length_of b == 0
    then (s, false)
    else if too_big b.pos
    then (s, false)
    else if not (is_start s.flag)
    then (s, false)
    else if ltb max_buffer_size (add32 s.msgbuffer2.pos b.pos)
    then (s, false)
    else (enqueue failed (written b) s, true)

-- `Send(data, len)` at the time `now`: the header and the bytes go to `msgbuffer2` in two writes.
unfoldable pub send : Bool → ℕ → List ℕ → Socket → Socket × Bool
send failed now data' s =
    let len = length data' in
    let headed = write s.msgbuffer2 (sent_header now len) in
    if len == 0
    then (s, false)
    else if ltb pack_size len
    then (s, false)
    else if not (is_start s.flag)
    then (s, false)
    else if ltb max_buffer_size (add32 s.msgbuffer2.pos (add32 len hdrlen))
    then (s, false)
    else (enqueue failed data' (record s { msgbuffer2 = headed }), true)

-- The end of `_WriteHandler`: nothing was left to send, and the socket is no longer started.
unfoldable pub settle : Socket × Bool → Socket
settle (s, sending) =
    if not sending && not (is_start s.flag) then post_close (request shutdown_wr s) else s

-- `_WriteHandler(tran_byte, error)`
unfoldable pub write_handler : Bool → ℕ → Bool → Socket → Socket
write_handler failed tran_byte error s =
    let s' = record s { writing = false } in
    let cut = record s' { msgbuffer1 = cut_data s.msgbuffer1 tran_byte } in
    if error
    then post_close s'
    else if tran_byte == 0
    then post_close s'
    else settle (try_send_data failed cut)
