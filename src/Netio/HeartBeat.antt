-- ===== src/Netio/HeartBeat.antt =====
-- netio/heartbeat.hpp: `HeartBeatMng`, which closes sockets that have been silent for too long and
-- sends on connectors that have been idle. A socket is known by a number; times are seconds.
pub mod Fresh
pub mod Silent
pub mod Keeps
mod Tests
use netlib.Common.{
  ℕ, suc, ◌+◌, ◌%◌, Bool, true, false, Option, none, some, List, [], ◌∷◌, ◌++◌, ltb, ◌==◌,
  if◌then◌else◌, get_elem?, set, replicate,
}

pub record SocketInfo : Type 0 where
  pub updtime : ℕ
  pub count : ℕ

pub record ConnSocketInfo : Type 0 where
  pub idle : ℕ
  pub snd_time : ℕ
  pub rcv_time : ℕ
  pub rcv_cnt : ℕ

-- `HeartInfo`: the three maps, and the lists that the callbacks fill under its mutex.
pub record HeartInfo : Type 0 where
  pub tcp_info : List (ℕ × SocketInfo)
  pub http_info : List (ℕ × SocketInfo)
  pub co_tcplist : List ℕ
  pub co_httplist : List ℕ
  pub data_tcplist : List ℕ
  pub data_httplist : List ℕ
  pub conn_tcp_info : List (ℕ × ConnSocketInfo)
  pub co_conn_tcplist : List (ℕ × ℕ)
  pub data_conn_tcplist : List ℕ

pub record HeartBeatMng : Type 0 where
  pub heartinfo : List HeartInfo
  pub svr_cnt : ℕ
  pub beat : ℕ

abbrev pub no_info : HeartInfo
no_info = record {
  tcp_info = [];
  http_info = [];
  co_tcplist = [];
  co_httplist = [];
  data_tcplist = [];
  data_httplist = [];
  conn_tcp_info = [];
  co_conn_tcplist = [];
  data_conn_tcplist = [];
}

-- `Start`, with `_beat` as the constructor leaves it; `SetBeat` is the field.
unfoldable pub start : ℕ → HeartBeatMng
start svr_cnt = record { heartinfo = replicate svr_cnt no_info; svr_cnt = svr_cnt; beat = 30 }

-- The part of the state that a callback changes under the mutex; `fd` is the socket's descriptor.
abbrev at_idx : ℕ → (HeartInfo → HeartInfo) → HeartBeatMng → HeartBeatMng
at_idx fd f m = elim (get_elem? m.heartinfo (fd % m.svr_cnt)) [
  | none ↦ m
  | some info ↦ record m { heartinfo = set m.heartinfo (fd % m.svr_cnt) (f info) }
]

unfoldable pub on_connected_tcp : ℕ → ℕ → HeartBeatMng → HeartBeatMng
on_connected_tcp fd s = at_idx fd (λ i. record i { co_tcplist = i.co_tcplist ++ (s ∷ []) })

unfoldable pub on_connected_http : ℕ → ℕ → HeartBeatMng → HeartBeatMng
on_connected_http fd s = at_idx fd (λ i. record i { co_httplist = i.co_httplist ++ (s ∷ []) })

unfoldable pub on_receive_tcp : ℕ → ℕ → HeartBeatMng → HeartBeatMng
on_receive_tcp fd s = at_idx fd (λ i. record i { data_tcplist = i.data_tcplist ++ (s ∷ []) })

unfoldable pub on_receive_http : ℕ → ℕ → HeartBeatMng → HeartBeatMng
on_receive_http fd s = at_idx fd (λ i. record i { data_httplist = i.data_httplist ++ (s ∷ []) })

unfoldable pub on_receive_conn : ℕ → ℕ → HeartBeatMng → HeartBeatMng
on_receive_conn fd s =
    at_idx fd (λ i. record i { data_conn_tcplist = i.data_conn_tcplist ++ (s ∷ []) })

unfoldable pub on_connected_conn : ℕ → ℕ → ℕ → HeartBeatMng → HeartBeatMng
on_connected_conn fd s idle =
    at_idx fd (λ i. record i { co_conn_tcplist = i.co_conn_tcplist ++ ((s, idle) ∷ []) })

-- `map[key] = value`, and the change of a value that is there.
module _ {A : Type 0} where
  unfoldable pub map_set : ℕ → A → List (ℕ × A) → List (ℕ × A)
  map_set k v [] = (k, v) ∷ []
  map_set k v ((k', v') ∷ m) =
      let rest = map_set k v m in if k == k' then (k, v) ∷ m else (k', v') ∷ rest

  unfoldable pub map_change : ℕ → (A → A) → List (ℕ × A) → List (ℕ × A)
  map_change k f [] = []
  map_change k f ((k', v) ∷ m) =
      let rest = map_change k f m in if k == k' then (k', f v) ∷ m else (k', v) ∷ rest

-- What `_Run` asks of the sockets.
pub data Order : Type 0 where
  closes sends : ℕ → Order

-- The loops over `tcp_info` and `http_info`; `up` is `IsConnected`.
unfoldable pub expire :
    (ℕ → Bool) → ℕ → ℕ → List (ℕ × SocketInfo) → List (ℕ × SocketInfo) × List Order
expire up beat now [] = ([], [])
expire up beat now ((s, i) ∷ m) =
    let (kept, orders) = expire up beat now m in
    if ltb (i.updtime + beat) now
    then (kept, if up s then closes s ∷ orders else orders)
    else ((s, i) ∷ kept, orders)

-- The loops over the lists of new sockets and of sockets that received data.
unfoldable pub join : ℕ → List ℕ → List (ℕ × SocketInfo) → List (ℕ × SocketInfo)
join now [] m = m
join now (s ∷ ss) m = join now ss (map_set s (record { updtime = now; count = 0 }) m)

unfoldable pub heard : ℕ → List ℕ → List (ℕ × SocketInfo) → List (ℕ × SocketInfo)
heard now [] m = m
heard now (s ∷ ss) m =
    heard now ss (map_change s (λ i. record i { count = suc i.count; updtime = now }) m)

-- The same for connectors, which also send when they have been idle.
unfoldable pub expire_conn :
    (ℕ → Bool) → ℕ → ℕ → List (ℕ × ConnSocketInfo) → List (ℕ × ConnSocketInfo) × List Order
expire_conn up beat now [] = ([], [])
expire_conn up beat now ((s, i) ∷ m) =
    let (kept, orders) = expire_conn up beat now m in
    if ltb (i.rcv_time + beat) now
    then (kept, if up s then closes s ∷ orders else orders)
    else if ltb (i.snd_time + i.idle) now
    then ((s, record i { snd_time = now }) ∷ kept, sends s ∷ orders)
    else ((s, i) ∷ kept, orders)

unfoldable pub join_conn : ℕ → List (ℕ × ℕ) → List (ℕ × ConnSocketInfo) → List (ℕ × ConnSocketInfo)
join_conn now [] m = m
join_conn now ((s, idle) ∷ ss) m =
    join_conn now ss
      (map_set s (record { idle = idle; snd_time = now; rcv_time = now; rcv_cnt = 0 }) m)

unfoldable pub heard_conn : ℕ → List ℕ → List (ℕ × ConnSocketInfo) → List (ℕ × ConnSocketInfo)
heard_conn now [] m = m
heard_conn now (s ∷ ss) m =
    heard_conn now ss (map_change s (λ i. record i { rcv_cnt = suc i.rcv_cnt; rcv_time = now }) m)

-- One round of `_Run` for one `HeartInfo`.
unfoldable pub beat_one : (ℕ → Bool) → ℕ → ℕ → HeartInfo → HeartInfo × List Order
beat_one up beat now h =
    let (tcp, o1) = expire up beat now h.tcp_info in
    let (http, o2) = expire up beat now h.http_info in
    let (conn, o3) = expire_conn up beat now h.conn_tcp_info in
    (
      record no_info {
        tcp_info = heard now h.data_tcplist (join now h.co_tcplist tcp);
        http_info = heard now h.data_httplist (join now h.co_httplist http);
        conn_tcp_info = heard_conn now h.data_conn_tcplist (join_conn now h.co_conn_tcplist conn);
      },
      o1 ++ (o2 ++ o3),
    )

unfoldable pub beat_all : (ℕ → Bool) → ℕ → ℕ → List HeartInfo → List HeartInfo × List Order
beat_all up beat now [] = ([], [])
beat_all up beat now (h ∷ hs) =
    let (h', o1) = beat_one up beat now h in
    let (hs', o2) = beat_all up beat now hs in (h' ∷ hs', o1 ++ o2)

-- One round of the loop of `_Run`, at the time `now`.
unfoldable pub run_once : (ℕ → Bool) → ℕ → HeartBeatMng → HeartBeatMng × List Order
run_once up now m =
    let (infos, orders) = beat_all up m.beat now m.heartinfo in
    (record m { heartinfo = infos }, orders)
