-- ===== src/Synccall/Client.antt =====
-- `ScClient` (synccall/synccall_client.hpp): a call over a `SyncConnector`, with one retry.
pub mod Answered
pub mod Settled
mod Tests
use netlib.Common.{ℕ, Bool, true, false, Option, none, some, List, [], ◌∷◌, if◌then◌else◌}
use netlib.Base.Buffer.{Buffer, contents}
use netlib.Netio.Sync.{
  SyncConnector, new_connector, connect, is_started, close, send, recv, Outcome, ok, failed, waits,
}
use netlib.Synccall.Rpc.{BaseScClient, fill_request, check_reply, twoway_type, oneway_type}

-- A null `_socket` is `none`.
pub record ScClient : Type 0 where
  pub base : BaseScClient
  pub socket : Option SyncConnector

-- The results 0, -2 and -3.
pub data Code : Type 0 where
  success connect_invalid other_error : Code

-- What the system and the peer do during one round of the loop of `_Sync`.
pub record Try : Type 0 where
  pub connects : Bool
  pub timestamp : ℕ
  pub sends : List (Option ℕ)
  pub recvs : List (Option (List ℕ))

abbrev pub socket_connected : Option SyncConnector → Bool
socket_connected none = false
socket_connected (some k) = is_started k.flag

unfoldable pub is_connected : ScClient → Bool
is_connected c = socket_connected c.socket

-- `Close`, which deletes the connector.
unfoldable pub close_client : ScClient → ScClient
close_client c = record c { socket = none }

abbrev pub reconnected : ScClient → SyncConnector × Bool → ScClient × Bool
reconnected c (k, true) = (record c { socket = some k }, true)
reconnected c (k, false) = (close_client (record c { socket = some k }), false)

unfoldable pub reconnect : Bool → ScClient → ScClient × Bool
unfolding close_client connect new_connector
reconnect answer c = reconnected c (connect answer new_connector)

-- `Connect` of the client, which only a client without a connector does.
abbrev pub connect_at : Option SyncConnector → Bool → ScClient → ScClient × Bool
connect_at (some k) answer c = (c, false)
connect_at none answer c = reconnect answer c

unfoldable pub connect_client : Bool → ScClient → ScClient × Bool
unfolding reconnect
connect_client answer c = connect_at c.socket answer c

-- What `preply` is: null, the buffer of the connector that is kept, or a pointer to the buffer of
-- a connector that was deleted.
pub data ReplyPointer : Type 0 where
  null dangling : ReplyPointer
  live : Buffer → ReplyPointer

-- How a round ends: `return 0`, `continue` with a code, or waiting for the system.
pub data Round : Type 0 where
  replied : ScClient → Buffer → Round
  again : Code → ScClient → ReplyPointer → Round
  hangs : ScClient → Round

abbrev pub read_reply : ScClient → SyncConnector → Option Buffer × Bool → Round
read_reply c k (some b, true) =
    replied (record c { socket = some (record k { reader = record k.reader { msgbuffer = b } }) }) b
read_reply c k (some b, false) = again other_error (close_client c) dangling
read_reply c k (none, checked) = again other_error (close_client c) dangling

-- `Recv` returns null when it fails.
abbrev pub after_recv : ScClient → Outcome → Round
after_recv c (ok k) = read_reply c k (check_reply c.base (some k.reader.msgbuffer))
after_recv c (failed k) = again other_error (close_client c) null
after_recv c (waits k) = hangs (record c { socket = some k })

abbrev pub after_send : Try → ScClient → ReplyPointer → Outcome → Round
after_send t c preply (ok k) = after_recv c (recv t.recvs k)
after_send t c preply (failed k) = again other_error (close_client c) preply
after_send t c preply (waits k) = hangs (record c { socket = some k })

-- From `_FillRequest` on.
abbrev pub exchange : Try → ℕ → ℕ → List ℕ → ReplyPointer → ScClient → Option SyncConnector → Round
exchange t way msg_type msg preply c none = again other_error c preply
exchange t way msg_type msg preply c (some k) =
    let base' = fill_request way msg_type msg c.base in
    after_send t (record c { base = base' }) preply
      (send t.timestamp (contents base'.request) t.sends k)

abbrev pub if_connected : Try → ℕ → ℕ → List ℕ → ReplyPointer → ScClient × Bool → Round
if_connected t way msg_type msg preply (c, true) = exchange t way msg_type msg preply c c.socket
if_connected t way msg_type msg preply (c, false) = again connect_invalid c preply

-- `preply` is what the round before has left.
unfoldable pub round : Try → ℕ → ℕ → List ℕ → ReplyPointer → ScClient → Round
unfolding is_connected close_client reconnect check_reply fill_request send recv
round t way msg_type msg preply c =
    if_connected t way msg_type msg preply
      (if is_connected c then (c, true) else reconnect t.connects c)

-- What `_Sync` returns and leaves in `preply`; `stuck` waits for the system.
pub data Called : Type 0 where
  returned : Code → ScClient → ReplyPointer → Called
  stuck : ScClient → Called

abbrev pub next_round : (Code → ReplyPointer → ScClient → Called) → Round → Called
next_round go (replied c b) = returned success c (live b)
next_round go (again code c preply) = go code preply c
next_round go (hangs c) = stuck c

-- The loop, with one `Try` for each round.
unfoldable pub rounds : List Try → ℕ → ℕ → List ℕ → Code → ReplyPointer → ScClient → Called
unfolding round
rounds [] way msg_type msg code preply c = returned code c preply
rounds (t ∷ ts) way msg_type msg code preply c =
    next_round (rounds ts way msg_type msg) (round t way msg_type msg preply c)

-- `_Sync`: `for (cnt = 0; cnt < 2; ++cnt)`. Both callers give it a null `preply`.
unfoldable pub sync : Try → Try → ℕ → ℕ → List ℕ → ScClient → Called
unfolding rounds
sync first second way msg_type msg c = rounds (first ∷ second ∷ []) way msg_type msg success null c

-- The two forms of `SyncCall`.
unfoldable pub sync_call : Try → Try → ℕ → List ℕ → ScClient → Called
unfolding sync
sync_call first second msg_type msg c = sync first second twoway_type msg_type msg c

unfoldable pub sync_call_oneway : Try → Try → ℕ → List ℕ → ScClient → Called
unfolding sync
sync_call_oneway first second msg_type msg c = sync first second oneway_type msg_type msg c
