-- ===== src/Synccall/Rpc.antt =====
-- A synchronous call: `BaseScClient::_FillRequest` and `_CheckReply` (synccall/synccall_client.hpp)
-- and what `ScServer::OnReceiveData` (synccall/synccall_svr.hpp) answers.
pub mod Match
pub mod Sample
use netlib.Common.{
  ℕ, ◌-◌, ◌^◌, Bool, true, false, Option, none, some, List, ◌==◌, if◌then◌else◌, add32,
}
use netlib.Base.Buffer.{Buffer, clear, cut_data, write, write_u32, read_u32, contents}

-- M_ONEWAY_TYPE, M_TWOWAY_TYPE, M_KEEPALIVE_ID, M_KEEPALIVE_ACK_ID
abbrev pub oneway_type : ℕ
oneway_type = 666

abbrev pub twoway_type : ℕ
twoway_type = 999

abbrev pub keepalive_id : ℕ
keepalive_id = 1

abbrev pub keepalive_ack_id : ℕ
keepalive_ack_id = 2

pub record BaseScClient : Type 0 where
  pub packidx : ℕ
  pub request : Buffer

-- The three words before a message.
abbrev pub write_head : Buffer → ℕ → ℕ → ℕ → Buffer
write_head b way msg_type pack_idx = write_u32 (write_u32 (write_u32 b way) msg_type) pack_idx

unfoldable pub fill_request : ℕ → ℕ → List ℕ → BaseScClient → BaseScClient
fill_request way msg_type msg c =
    let packidx' = add32 c.packidx 1 in
    record {
      packidx = packidx';
      request = write (write_head (clear c.request) way msg_type packidx') msg;
    }

-- Three words read, each 0 if it is not there.
pub record Head : Type 0 where
  pub way_type : ℕ
  pub msg_type : ℕ
  pub pack_idx : ℕ

unfoldable pub read_head : Buffer → Buffer × Head
read_head b =
    let (b1, way) = read_u32 b 0 in
    let (b2, type') = read_u32 b1 0 in
    let (b3, idx) = read_u32 b2 0 in
    (b3, record { way_type = way; msg_type = type'; pack_idx = idx })

-- `_CheckReply`, with the reply as it leaves it; `none` is the null pointer.
unfoldable pub check_reply : BaseScClient → Option Buffer → Option Buffer × Bool
check_reply c none = (none, false)
check_reply c (some reply) = let (b, head) = read_head reply in (some b, head.pack_idx == c.packidx)

-- `IServerHandler`: `two_way` gets the message type, the request and the buffer for the answer;
-- `one_way` only sees the request.
pub record Handler : Type 0 where
  pub two_way : ℕ → Buffer → Buffer → Buffer

-- What `OnReceiveData` leaves in `_ScInfo_::buffer`, sends, and gives to `OnOneWayDealer`.
pub record Received : Type 0 where
  pub info : Buffer
  pub sent : Option (List ℕ)
  pub dealt : Option (ℕ × Buffer)

-- The dispatch on the way of a request, once its head is read.
unfoldable pub deal : Handler → Buffer → Buffer → Head → Received
deal handler info buffer head =
    let info' = write_head (clear info) head.way_type head.msg_type head.pack_idx in
    let answered = handler.two_way head.msg_type buffer info' in
    if head.way_type == oneway_type
    then record { info = info'; sent = some (contents info'); dealt = some (head.msg_type, buffer) }
    else if head.way_type == twoway_type
    then record { info = answered; sent = some (contents answered); dealt = none }
    else record { info = info'; sent = none; dealt = none }

unfoldable pub on_receive_data : Option Handler → Buffer → Buffer → Received
on_receive_data handler info buffer =
    let (b, msgid) = read_u32 buffer 0 in
    let (b', head) = read_head (cut_data b (2 ^ 32 - 4)) in
    if msgid == keepalive_id
    then record {
      info = info;
      sent = some (contents (write_u32 (clear b) keepalive_ack_id));
      dealt = none;
    }
    else elim handler [
      | none ↦ record { info = info; sent = none; dealt = none }
      | some h ↦ deal h info b' head
    ]
