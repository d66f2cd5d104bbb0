-- ===== src/Netio/HeartBeat/Tests.antt =====
-- netio/heartbeat.hpp at a manager of two shards.
use netlib.Common.{ℕ, ◌≡◌, refl, Bool, true, [], ◌∷◌}
use netlib.Netio.HeartBeat.{
  HeartBeatMng, HeartInfo, closes, no_info, map_set, map_change, expire, join, heard, expire_conn,
  join_conn, heard_conn, beat_one, beat_all, run_once,
}
use netlib.Netio.HeartBeat.Fresh.{InfosFresh, run_once-InfosFresh}
use netlib.Netio.HeartBeat.Silent.{AllCloses, SilentIn, run_once-AllCloses}

abbrev all_up : ℕ → Bool
all_up s = true

-- Socket 1 has been silent since 10, socket 2 was heard of at 70; socket 3 is new.
abbrev watched_info : HeartInfo
watched_info = record no_info {
  tcp_info = (1, record { updtime = 10; count = 0 }) ∷ (2, record { updtime = 70; count = 4 }) ∷ [];
  co_tcplist = 3 ∷ [];
}

abbrev watched : HeartBeatMng
watched = record { heartinfo = watched_info ∷ no_info ∷ []; svr_cnt = 2; beat = 30 }

run_once-InfosFresh_example : InfosFresh 30 90 (run_once all_up 90 watched).0.heartinfo
run_once-InfosFresh_example = run_once-InfosFresh all_up 90 watched

run_once-AllCloses_example :
    AllCloses (λ s. SilentIn all_up 30 90 s watched.heartinfo) (run_once all_up 90 watched).1
run_once-AllCloses_example = run_once-AllCloses all_up 90 watched

run_watched : (run_once all_up 90 watched).1 ≡ closes 1 ∷ []
unfolding run_once beat_all beat_one expire join heard expire_conn join_conn heard_conn map_set
    map_change
run_watched = refl
