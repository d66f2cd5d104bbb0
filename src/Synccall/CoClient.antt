-- ===== src/Synccall/CoClient.antt =====
-- `CoScClient` (synccall/synccall_coclient.hpp): a call made in a coroutine, which yields until
-- `ScServer::OnReceiveData` or `OnDisconnected` of its connector (synccall/synccall_svr.hpp) has it
-- resumed. The coroutine runs from yield to yield as one step. What another thread does in between
-- is as if it came after the yield, but for a connection that is lost inside `_Reconnect`.
pub mod Idle
pub mod Rounds
pub mod Wakeful
pub mod Woken
pub mod Replied
pub mod Ended
pub mod Stranded
mod Tests
use netlib.Common.{
  ℕ, ◌+◌, ◌-◌, ◌^◌, Bool, true, false, Option, none, some, List, [], ◌∷◌, ◌++◌, ◌==◌, if◌then◌else◌,
}
use netlib.Base.Buffer.{Buffer, new, clear, cut_data, swap, read_u32, contents}
use netlib.Netio.Writer.{Socket, stop, start, is_start, connected, post_close, send}
use netlib.Netio.HeartBeat.{HeartBeatMng, on_connected_conn, on_receive_conn}
use netlib.Synccall.Rpc.{BaseScClient, fill_request, check_reply, twoway_type, keepalive_ack_id}
use netlib.Synccall.Client.{Code, success, connect_invalid, other_error}

-- `_CoScInfo_`; the id -1 is `none`.
pub record CoScInfo : Type 0 where
  pub valid : Bool
  pub thr_id : ℕ
  pub co_id : Option ℕ
  pub buffer : Buffer

-- A `TcpConnector` with its descriptor and its extra data.
pub record TcpConnector : Type 0 where
  pub fd : ℕ
  pub tcp : Socket
  pub info : CoScInfo

-- A client; `socket` is the number of its connector, `none` is null. `connectors` are all that it
-- has made, `made` in number, since callbacks still come for one that it has left. `resumes` are
-- the calls of `addResume` that no thread has taken yet.
pub record CoScClient : Type 0 where
  pub base : BaseScClient
  pub socket : Option ℕ
  pub made : ℕ
  pub connectors : ℕ → TcpConnector
  pub heartmng : HeartBeatMng
  pub resumes : List (ℕ × Option ℕ)

abbrev pub update : (ℕ → TcpConnector) → ℕ → TcpConnector → ℕ → TcpConnector
update f k v j = if k == j then v else f j

abbrev pub set_connector : ℕ → TcpConnector → CoScClient → CoScClient
set_connector k v c = record c { connectors = update c.connectors k v }

-- The information that `_Reconnect` attaches to a new connector.
abbrev pub new_info : CoScInfo
new_info = record { valid = false; thr_id = 0; co_id = none; buffer = new }

-- What the system does in one round of the loop of `_Sync`: whether `Connect` succeeds, and loses
-- the connection again before `_Reconnect` is at its end; the descriptor, the time, and whether
-- the write fails at once.
pub record Attempt : Type 0 where
  pub connects : Bool
  pub lost : Bool
  pub fd : ℕ
  pub now : ℕ
  pub failed : Bool

-- The information that `OnDisconnected` leaves, and what it adds to the calls of `addResume`.
abbrev pub reset_info : CoScInfo → CoScInfo
reset_info i = record { valid = false; thr_id = 0; co_id = none; buffer = clear i.buffer }

abbrev pub resume_if : ℕ → Option ℕ → List (ℕ × Option ℕ)
resume_if thr none = []
resume_if thr (some co) = (thr, some co) ∷ []

-- `ScServer::OnDisconnected` of a connector.
unfoldable pub on_disconnected : ℕ → CoScClient → CoScClient
on_disconnected k c =
    let n = c.connectors k in
    record c {
      connectors = update c.connectors k (record n { info = reset_info n.info });
      resumes = c.resumes ++ resume_if n.info.thr_id n.info.co_id;
    }

-- The information once a reply is there, which it takes over by `Swap`.
abbrev pub take_reply : Buffer → CoScInfo → CoScInfo
take_reply b i = record i { thr_id = 0; co_id = none; buffer = (swap (clear i.buffer, b)).0 }

-- `ScServer::OnReceiveData` of a connector. The id that it resumes may be -1.
unfoldable pub on_receive_reply : ℕ → Buffer → CoScClient → CoScClient
on_receive_reply k b c =
    let n = c.connectors k in
    let c' = record c { heartmng = on_receive_conn n.fd k c.heartmng } in
    let (b', msgid) = read_u32 b 0 in
    if msgid == keepalive_ack_id then c' else record c' {
      connectors =
          update c.connectors k (record n { info = take_reply (cut_data b' (2 ^ 32 - 4)) n.info });
      resumes = c.resumes ++ ((n.info.thr_id, n.info.co_id) ∷ []);
    }

abbrev pub connected_at : Option ℕ → CoScClient → Bool
connected_at none c = false
connected_at (some k) c = is_start (c.connectors k).tcp.flag

unfoldable pub is_connected_co : CoScClient → Bool
is_connected_co c = connected_at c.socket c

abbrev pub close_at : Option ℕ → CoScClient → CoScClient
close_at none c = c
close_at (some k) c =
    let n = c.connectors k in
    record c {
      socket = none;
      connectors = update c.connectors k (record n { tcp = post_close n.tcp });
    }

unfoldable pub close_co : CoScClient → CoScClient
close_co c = close_at c.socket c

-- `reset(new TcpConnector)` and the information that it gets.
abbrev pub make : ℕ → CoScClient → CoScClient
make fd c = record c {
  socket = some c.made;
  made = c.made + 1;
  connectors =
      update c.connectors c.made
        (record { fd = fd; tcp = record connected { flag = stop }; info = new_info });
}

-- A connection that is lost is closed, and `OnDisconnected` is called.
abbrev pub lose : ℕ → CoScClient → CoScClient
lose k c =
    let n = c.connectors k in
    on_disconnected k (set_connector k (record n { tcp = post_close n.tcp }) c)

abbrev pub set_valid : TcpConnector → TcpConnector
set_valid n = record n { info = record n.info { valid = true } }

-- After `Connect` of the connector `k` has succeeded.
abbrev pub linked : Attempt → ℕ → CoScClient → CoScClient
linked t k c =
    let n = c.connectors k in
    let up = set_connector k (record n { tcp = record n.tcp { flag = start } }) c in
    let c' = if t.lost then lose k up else up in
    record c' {
      connectors = update c'.connectors k (set_valid (c'.connectors k));
      heartmng = on_connected_conn t.fd k 10 c'.heartmng;
    }

unfoldable pub reconnect_co : Attempt → CoScClient → CoScClient × Bool
unfolding close_co
reconnect_co t c =
    let c' = make t.fd c in if t.connects then (linked t c.made c', true) else (close_co c', false)

-- `Connect`, which only a client without a connector does; `_io` is never null, as
-- `CreateCoScClient` sets it.
abbrev pub connect_co_at : Option ℕ → Attempt → CoScClient → CoScClient × Bool
connect_co_at (some k) t c = (c, false)
connect_co_at none t c = reconnect_co t c

unfoldable pub connect_co : Attempt → CoScClient → CoScClient × Bool
unfolding reconnect_co
connect_co t c = connect_co_at c.socket t c

-- How a round goes on: at the yield, waiting on a connector, or with `continue` and a code.
pub data Round : Type 0 where
  yields : ℕ → CoScClient → Round
  again : Code → CoScClient → Round

abbrev pub register : ℕ → ℕ → TcpConnector → TcpConnector
register thr co n = record n { info = record n.info { thr_id = thr; co_id = some co } }

-- `_FillRequest`, always of the two-way type, and `Send`, whose result is not looked at.
abbrev pub ask : Attempt → ℕ → ℕ → List ℕ → CoScClient → CoScClient
ask t k msg_type msg c =
    let base' = fill_request twoway_type msg_type msg c.base in
    let n = c.connectors k in
    let sent = send t.failed t.now (contents base'.request) n.tcp in
    record c { base = base'; connectors = update c.connectors k (record n { tcp = sent.0 }) }

abbrev pub enter : Attempt → ℕ → ℕ → ℕ → List ℕ → Option ℕ → CoScClient → Round
enter t thr co msg_type msg none c = again other_error c
enter t thr co msg_type msg (some k) c =
    if (c.connectors k).info.valid
    then yields k (ask t k msg_type msg (set_connector k (register thr co (c.connectors k)) c))
    else again other_error (close_co c)

abbrev pub if_linked : Attempt → ℕ → ℕ → ℕ → List ℕ → CoScClient × Bool → Round
if_linked t thr co msg_type msg (c, true) = enter t thr co msg_type msg c.socket c
if_linked t thr co msg_type msg (c, false) = again connect_invalid c

-- A round up to the yield.
unfoldable pub round_co : Attempt → ℕ → ℕ → ℕ → List ℕ → CoScClient → Round
unfolding is_connected_co reconnect_co
round_co t thr co msg_type msg c =
    if_linked t thr co msg_type msg (if is_connected_co c then (c, true) else reconnect_co t c)

-- A call: at the yield, with the rounds that are left, or returned.
pub data CoCall : Type 0 where
  waiting : ℕ → List Attempt → CoScClient → CoCall
  returned : Code → CoScClient → Option Buffer → CoCall

abbrev pub after_round : (Code → CoScClient → CoCall) → List Attempt → Round → CoCall
after_round go ts (yields k c) = waiting k ts c
after_round go ts (again code c) = go code c

-- The loop of `_Sync`, with one `Attempt` for each round that is left.
unfoldable pub rounds_co : List Attempt → ℕ → ℕ → ℕ → List ℕ → Code → CoScClient → CoCall
unfolding round_co
rounds_co [] thr co msg_type msg code c = returned code c none
rounds_co (t ∷ ts) thr co msg_type msg code c =
    after_round (rounds_co ts thr co msg_type msg) ts (round_co t thr co msg_type msg c)

-- `_Sync` of the coroutine `co` of the thread `thr`, up to its first yield or its return.
unfoldable pub sync_co : Attempt → Attempt → ℕ → ℕ → ℕ → List ℕ → CoScClient → CoCall
unfolding rounds_co
sync_co first second thr co msg_type msg c =
    rounds_co (first ∷ second ∷ []) thr co msg_type msg success c

abbrev pub read_reply_co :
    (Code → CoScClient → CoCall) → ℕ → CoScClient → Option Buffer × Bool → CoCall
read_reply_co go k c (some b, true) =
    let n = c.connectors k in
    returned success (set_connector k (record n { info = record n.info { buffer = b } }) c) (some b)
read_reply_co go k c (some b, false) = go other_error (close_co c)
read_reply_co go k c (none, checked) = go other_error (close_co c)

-- `_Sync` from the yield on, up to the next one or its return.
unfoldable pub resumed_co : ℕ → List Attempt → ℕ → ℕ → ℕ → List ℕ → CoScClient → CoCall
unfolding check_reply rounds_co
resumed_co k ts thr co msg_type msg c =
    read_reply_co (rounds_co ts thr co msg_type msg) k c
      (check_reply c.base (some (c.connectors k).info.buffer))
