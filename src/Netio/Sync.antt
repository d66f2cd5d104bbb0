-- ===== src/Netio/Sync.antt =====
-- `SyncConnector` (netio/tconnector_impl.hpp): a connection that sends and receives one message at
-- a time and waits for it. What the system answers to `SendSome` and `RecvSome` is a list.
pub mod Cut
pub mod Recv
pub mod Again
pub mod Send
mod Tests
use netlib.Common.{
  ℕ, zero, suc, ◌+◌, ◌-◌, Bool, true, false, Option, none, some, List, [], ◌∷◌, ◌++◌, ltb, leb,
  ◌==◌, ◌&&◌, if◌then◌else◌, length, take, drop, replicate, memcpy, add32, sub32,
}
use netlib.Base.Buffer.{Buffer, new, clear, cut_data, length_of, write, contents}
use netlib.Netio.Header.{Header, hdrlen, n2h, sent_header}
use netlib.Netio.Reader.{Reader, new_reader, read_size, Headed, wait, bad, go, read_header}
use netlib.Netio.Writer.{Flag, start, stop}

-- 0xFFFF - hdrlen
abbrev pub max_msg : ℕ
max_msg = 0xFFFF - hdrlen

-- `reader` is `_rcvbuffer` and `_curheader`. `wire` is what the system has taken.
pub record SyncConnector : Type 0 where
  pub flag : Flag
  pub reader : Reader
  pub readbuf : List ℕ
  pub readsize : ℕ
  pub sndbuffer : Buffer
  pub wire : List ℕ

-- The constructor.
unfoldable pub new_connector : SyncConnector
unfolding new new_reader
new_connector = record {
  flag = stop;
  reader = new_reader;
  readbuf = replicate read_size 0;
  readsize = 0;
  sndbuffer = new;
  wire = [];
}

-- `Connect`, as the system answers it.
unfoldable pub connect : Bool → SyncConnector → SyncConnector × Bool
connect answer c = if answer then (record c { flag = start }, true) else (c, false)

abbrev pub is_started : Flag → Bool
is_started start = true
is_started stop = false
is_started Flag.close = false

-- The header, as in `Netio/Reader`, with the limit of this class.
unfoldable pub take_header : Reader → List ℕ → Headed
take_header r buf =
    let (b, h) = read_header r.msgbuffer r.curheader in
    let r' : Reader = record { msgbuffer = b; curheader = n2h h } in
    if ltb max_msg r'.curheader.size then bad r' else go r' buf

unfoldable pub sync_header : Reader → List ℕ → Headed
sync_header r buf =
    let datalen = length_of r.msgbuffer in
    let lack = sub32 hdrlen datalen in
    if r.curheader.size == 0
    then if ltb (add32 (length buf) datalen) hdrlen
      then wait (record r { msgbuffer = write r.msgbuffer buf })
      else if leb hdrlen datalen
      then take_header r buf
      else take_header (record r { msgbuffer = write r.msgbuffer (take lack buf) }) (drop lack buf)
    else go r buf

-- The result of `_CutMsgPack`: `return 0`, for a message that is incomplete or too long, or
-- `return &_rcvbuffer` with the bytes that are left of the chunk.
pub data Packed : Type 0 where
  more : Reader → Packed
  dropped : Reader → Packed
  reply : Reader → List ℕ → Packed

unfoldable pub sync_body : Reader → List ℕ → Packed
sync_body r buf =
    let datalen = length_of r.msgbuffer in
    let lack = sub32 r.curheader.size datalen in
    if ltb (add32 (length buf) datalen) r.curheader.size
    then more (record r { msgbuffer = write r.msgbuffer buf })
    else reply
        (record {
          msgbuffer = write r.msgbuffer (take lack buf);
          curheader = record r.curheader { size = 0 };
        })
        (drop lack buf)

abbrev pub with_head : Headed → Packed
with_head (wait r) = more r
with_head (bad r) = dropped r
with_head (go r rest) = sync_body r rest

-- `_CutMsgPack`
unfoldable pub cut_pack : Reader → List ℕ → Packed
unfolding sync_header take_header sync_body
cut_pack r buf = with_head (sync_header r buf)

unfoldable pub close : SyncConnector → SyncConnector
close c = record c { flag = stop }

-- How a call ends: with its result, with a failure, or waiting for the system, whose answers
-- are used up.
pub data Outcome : Type 0 where
  ok : SyncConnector → Outcome
  failed : SyncConnector → Outcome
  waits : SyncConnector → Outcome

-- `RecvSome`, which writes to the start of `_readbuf`.
abbrev pub received : List ℕ → SyncConnector → SyncConnector
received chunk c = record c { readbuf = memcpy c.readbuf 0 chunk; readsize = length chunk }

abbrev pub chunk_of : SyncConnector → List ℕ
chunk_of c = take c.readsize c.readbuf

abbrev pub cut_or : (SyncConnector → Outcome) → Packed → SyncConnector → Outcome
cut_or again (more r) c = again (record c { reader = r })
cut_or again (dropped r) c = again (record c { reader = r })
cut_or again (reply r rest) c = ok (record c { reader = r; readsize = length rest })

-- The loop of `Recv`. An answer is an error, the end of the stream, or some bytes.
unfoldable pub recv_loop : List (Option (List ℕ)) → SyncConnector → Outcome
unfolding close cut_pack
recv_loop [] c = waits c
recv_loop (none ∷ os) c = failed (close (record c { readsize = 0 }))
recv_loop (some [] ∷ os) c = failed (close (record c { readsize = 0 }))
recv_loop (some (b ∷ bs) ∷ os) c =
    cut_or (recv_loop os) (cut_pack c.reader (chunk_of (received (b ∷ bs) c))) (received (b ∷ bs) c)

abbrev pub cleared : SyncConnector → SyncConnector
cleared c = record c { reader = record c.reader { msgbuffer = clear c.reader.msgbuffer } }

-- `Recv`: the reply is `_rcvbuffer`.
unfoldable pub recv : List (Option (List ℕ)) → SyncConnector → Outcome
unfolding recv_loop cut_pack
recv os c =
    if is_started c.flag
    then if ltb 0 c.readsize
      then cut_or (recv_loop os) (cut_pack (cleared c).reader (chunk_of c)) (cleared c)
      else recv_loop os (cleared c)
    else failed c

-- The loop of `Send`. An answer is an error, or the number of bytes that are taken.
unfoldable pub send_loop : List (Option ℕ) → SyncConnector → Outcome
unfolding close
send_loop [] c = waits c
send_loop (none ∷ os) c = failed (close c)
send_loop (some n ∷ os) c =
    let c' : SyncConnector = record c {
      wire = c.wire ++ take n (contents c.sndbuffer);
      sndbuffer = cut_data c.sndbuffer n;
    } in
    let rest = send_loop os c' in if length_of c'.sndbuffer == 0 then ok c' else rest

-- `Send` at time `timestamp`.
unfoldable pub send : ℕ → List ℕ → List (Option ℕ) → SyncConnector → Outcome
unfolding send_loop
send timestamp bytes os c =
    if is_started c.flag
    then if ltb 0 (length bytes) && leb (length bytes) max_msg
      then send_loop os (record c {
        sndbuffer = write (write (clear c.sndbuffer) (sent_header timestamp (length bytes))) bytes;
      })
      else failed c
    else failed c
