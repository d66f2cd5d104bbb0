-- ===== src/Netio/Reader.antt =====
-- `TcpStreamSocket::_CutMsgPack` (netio/tsocket_impl.hpp): cuts the bytes that arrive on a stream
-- into messages. One call gets one chunk, and keeps what is incomplete in `_reader`.
pub mod Spec
pub mod Append
pub mod Frames
pub mod Step
pub mod Refine
pub mod Stream
mod Tests
use netlib.Common.{
  ℕ, zero, suc, ◌*◌, Bool, true, false, Option, none, some, List, [], ◌∷◌, ◌++◌, ltb, leb, ◌==◌,
  if◌then◌else◌, length, take, drop, add32, sub32,
}
use netlib.Base.Buffer.{Buffer, new, clear, length_of, write, read, contents}
use netlib.Netio.Header.{Header, hdrlen, n2h, header_value}

-- M_SOCKET_READ_SIZE, M_SOCKET_PACK_SIZE
abbrev pub read_size : ℕ
read_size = 4 * 1024

abbrev pub pack_size : ℕ
pack_size = 400 * 1024

-- `_readerinfo_`; `readbuf` is the chunk that a call is given.
pub record Reader : Type 0 where
  pub msgbuffer : Buffer
  pub curheader : Header

unfoldable pub new_reader : Reader
new_reader = record { msgbuffer = new; curheader = record { timestamp = 0; size = 0 } }

-- `msgbuffer.Read(curheader)`, which leaves the header as it was if the bytes are not there.
unfoldable pub read_header : Buffer → Header → Buffer × Header
read_header b h =
    let (b', r) = read b hdrlen in (b', elim r [ none ↦ h | some bs ↦ header_value bs ])

-- How far the first half of the loop's body gets: `return true`, `return false`, or on with the
-- chunk that is left.
pub data Headed : Type 0 where
  wait bad : Reader → Headed
  go : Reader → List ℕ → Headed

unfoldable pub load_header : Reader → List ℕ → Headed
load_header r buf =
    let (b, h) = read_header r.msgbuffer r.curheader in
    let r' : Reader = record { msgbuffer = b; curheader = n2h h } in
    if ltb pack_size r'.curheader.size then bad r' else go r' buf

unfoldable pub cut_header : Reader → List ℕ → Headed
cut_header r buf =
    let datalen = length_of r.msgbuffer in
    let lack = sub32 hdrlen datalen in
    if r.curheader.size == 0
    then if ltb (add32 (length buf) datalen) hdrlen
      then wait (record r { msgbuffer = write r.msgbuffer buf })
      else if leb hdrlen datalen
      then load_header r buf
      else load_header (record r { msgbuffer = write r.msgbuffer (take lack buf) }) (drop lack buf)
    else go r buf

-- How far the second half gets: `return true`, or a message to `OnReceiveData` and round again.
pub data Bodied : Type 0 where
  partial : Reader → Bodied
  notify : Reader → List ℕ → List ℕ → Bodied

unfoldable pub cut_body : Reader → List ℕ → Bodied
cut_body r buf =
    let datalen = length_of r.msgbuffer in
    let lack = sub32 r.curheader.size datalen in
    let whole = write r.msgbuffer (take lack buf) in
    if ltb (add32 (length buf) datalen) r.curheader.size
    then partial (record r { msgbuffer = write r.msgbuffer buf })
    else notify (record { msgbuffer = clear whole; curheader = record r.curheader { size = 0 } })
        (drop lack buf) (contents whole)

-- What a call leaves, notifies in order, and returns.
pub record Cut : Type 0 where
  pub reader : Reader
  pub msgs : List (List ℕ)
  pub ok : Bool

abbrev pub add_msg : List ℕ → Option Cut → Option Cut
add_msg m none = none
add_msg m (some c) = some (record c { msgs = m ∷ c.msgs })

abbrev pub returns : Reader → Bool → Option Cut
returns r ok = some (record { reader = r; msgs = []; ok = ok })

-- How the loop goes on after each half; `again` is its next round.
abbrev pub after_body : (Reader → List ℕ → Option Cut) → Bodied → Option Cut
after_body again (partial r) = returns r true
after_body again (notify r rest m) = add_msg m (again r rest)

abbrev pub after_header : (Reader → List ℕ → Option Cut) → Headed → Option Cut
after_header again (wait r) = returns r true
after_header again (bad r) = returns r false
after_header again (go r rest) = after_body again (cut_body r rest)

-- The loop; `none` is fuel that ran out, which `Refine` rules out.
unfoldable pub cut_msg_pack : ℕ → Reader → List ℕ → Option Cut
cut_msg_pack zero r buf = none
cut_msg_pack (suc fuel) r buf = after_header (cut_msg_pack fuel) (cut_header r buf)

abbrev pub and_then : Cut → (Reader → Option Cut) → Option Cut
and_then c next =
    if c.ok
    then elim (next c.reader) [ none ↦ none | some d ↦ some (record d { msgs = c.msgs ++ d.msgs }) ]
    else some c

-- The chunks of a connection in order; after the first `false` the socket is closed, and what
-- comes later is not looked at.
unfoldable pub feed : Reader → List (List ℕ) → Option Cut
feed r [] = some (record { reader = r; msgs = []; ok = true })
feed r (chunk ∷ chunks) = elim (cut_msg_pack (suc (length chunk)) r chunk) [
  | none ↦ none
  | some c ↦ and_then c (λ r'. feed r' chunks)
]
