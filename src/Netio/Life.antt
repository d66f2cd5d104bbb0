-- ===== src/Netio/Life.antt =====
-- A `TcpSocket` (netio/netio.hpp, netio/tsocket_impl.hpp) from `Init` to `OnDisconnected`: the read
-- that is posted again and again, over the cutting of Netio/Reader and the sending of Netio/Writer,
-- and the callbacks that the program gets, each of which may be interrupted by all else.
pub mod Flags
pub mod Ordered
pub mod Reached
pub mod Last
mod Tests
use netlib.Common.{
  ℕ, suc, ◌≤◌, ◌<◌, ◌≡◌, Bool, true, false, Option, none, some, List, [], ◌∷◌, ◌++◌, map, length,
  ◌==◌, if◌then◌else◌,
}
use netlib.Base.Buffer.{Buffer}
use netlib.Netio.Reader.{Reader, Cut, new_reader, read_size, cut_msg_pack}
use netlib.Netio.Writer.{
  Socket, start, is_start, connected, post_close, send, send_buffer, write_handler,
}
use netlib.Netio.Writer.Requests.{closings}

-- What the program is told.
pub data Callback : Type 0 where
  connects : Callback
  receives : List ℕ → Callback
  disconnects : Callback

-- What follows a callback that runs: the messages left of the chunk, which `_CutMsgPack` notifies
-- one by one, and then a read, or the end if the chunk was not well-formed.
pub record Remaining : Type 0 where
  pub left : List (List ℕ)
  pub ok : Bool

-- `reading` says that a read is posted, `read_shut` that the reading side was shut down. While a
-- callback of `Init` or `_CutMsgPack` runs, `rest` is what follows it: no lock is held, so other
-- threads, and coroutines that run while it yields, use the socket in between.
pub record TcpSocket : Type 0 where
  pub base : Socket
  pub reader : Reader
  pub reading : Bool
  pub read_shut : Bool
  pub rest : Option Remaining
  pub callbacks : List Callback

-- `_TryRecvData`; `failed` is whether `AsyncRecvSome` reports an error.
unfoldable pub try_recv_data : Bool → TcpSocket → TcpSocket
try_recv_data failed s =
    if failed then record s { base = post_close s.base } else record s { reading = true }

-- `Init` of an accepted socket, when its addresses can be read, up to `OnConnected`.
unfoldable pub init : TcpSocket
unfolding connected
init = record {
  base = record connected { flag = start };
  reader = new_reader;
  reading = false;
  read_shut = false;
  rest = some (record { left = []; ok = true });
  callbacks = connects ∷ [];
}

-- `_PostClose` at the end of `_ReadHandler`.
abbrev pub ends_reading : TcpSocket → TcpSocket
ends_reading s = record s { base = post_close s.base }

-- The messages that `_CutMsgPack` cuts from the chunk, before the first is notified.
abbrev pub start_cut : TcpSocket → Option Cut → Option TcpSocket
start_cut s none = none
start_cut s (some c) =
    some (record s { reader = c.reader; rest = some (record { left = c.msgs; ok = c.ok }) })

-- `_ReadHandler(tran_byte, error)` with the chunk in `readbuf`, up to the first `OnReceiveData`;
-- `none` is fuel that ran out.
unfoldable pub read_handler : List ℕ → Bool → TcpSocket → Option TcpSocket
read_handler chunk error s =
    let s' = record s { reading = false } in
    if error
    then some (ends_reading s')
    else if length chunk == 0
    then some (ends_reading s')
    else if is_start s.base.flag
    then start_cut s' (cut_msg_pack (suc (length chunk)) s.reader chunk)
    else some (ends_reading s')

-- `OnReceiveData` for the next message.
abbrev pub tell_next : TcpSocket → List ℕ → List (List ℕ) → Bool → TcpSocket
tell_next s m ms ok = record s {
  rest = some (record { left = ms; ok = ok });
  callbacks = s.callbacks ++ receives m ∷ [];
}

-- After the last one.
abbrev pub finish_read : Bool → TcpSocket → Bool → TcpSocket
finish_read failed s true = try_recv_data failed s
finish_read failed s false = ends_reading (record s { read_shut = true })

-- What comes once the callback that ran has returned.
abbrev pub follow_up : Bool → TcpSocket → List (List ℕ) → Bool → TcpSocket
follow_up failed s (m ∷ ms) ok = tell_next s m ms ok
follow_up failed s [] ok = finish_read failed (record s { rest = none }) ok

abbrev pub follow_rest : Bool → TcpSocket → Option Remaining → TcpSocket
follow_rest failed s none = s
follow_rest failed s (some r) = follow_up failed s r.left r.ok

-- From the return of a callback, or from the cut, to the next `OnReceiveData` or to the end of
-- `_ReadHandler` or `Init`.
unfoldable pub carry_on : Bool → TcpSocket → TcpSocket
unfolding try_recv_data
carry_on failed s = follow_rest failed s s.rest

-- `_CloseHandler`, which the service calls when it has closed the socket.
unfoldable pub close_handler : TcpSocket → TcpSocket
close_handler s = record s { callbacks = s.callbacks ++ disconnects ∷ [] }

abbrev pub disconnections : List Callback → ℕ
disconnections [] = 0
disconnections (connects ∷ cs) = disconnections cs
disconnections (receives m ∷ cs) = disconnections cs
disconnections (disconnects ∷ cs) = suc (disconnections cs)

-- What the program and the service do to the socket, one after the other. The service ends a read
-- or a write only if one is posted, and calls `_CloseHandler` once for each close request.
pub data Step (s : TcpSocket) : TcpSocket → Type 0 where
  reads :
      (chunk : List ℕ) (error : Bool) {s' : TcpSocket}
      → s.reading ≡ true
      → length chunk ≤ read_size
      → read_handler chunk error s ≡ some s'
      → Step s s'
  carries_on : (failed : Bool) → Step s (carry_on failed s)
  sends :
      (failed : Bool) (now : ℕ) (d : List ℕ)
      → Step s (record s { base = (send failed now d s.base).0 })
  sends_buffer :
      (failed : Bool) (b : Buffer)
      → Step s (record s { base = (send_buffer failed (some b) s.base).0 })
  writes :
      (failed : Bool) (n : ℕ) (error : Bool)
      → s.base.writing ≡ true
      → Step s (record s { base = write_handler failed n error s.base })
  closes : Step s (record s { base = post_close s.base })
  closed : disconnections s.callbacks < closings s.base.requests → Step s (close_handler s)

-- From `Init` on.
pub data Reach : TcpSocket → Type 0 where
  accepted : Reach init
  later : {s s' : TcpSocket} → Reach s → Step s s' → Reach s'

-- From a state on.
pub data After (s : TcpSocket) : TcpSocket → Type 0 where
  here : After s s
  then_on : {t u : TcpSocket} → After s t → Step t u → After s u
