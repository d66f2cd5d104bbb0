-- ===== src/Netio/HeartBeat/Fresh.antt =====
-- What a round of `HeartBeatMng::_Run` (netio/heartbeat.hpp) leaves, and which sockets it closes.
use netlib.Common.{ℕ, ◌+◌, ◌≤◌, inl, inr, Bool, List, [], ◌∷◌, ltb, ltb→le, ◌==◌, Bool-cases, arith}
use netlib.Netio.HeartBeat.{
  SocketInfo, ConnSocketInfo, HeartInfo, HeartBeatMng, map_set, map_change, expire, join, heard,
  expire_conn, join_conn, heard_conn, beat_one, beat_all, run_once,
}

abbrev pub upd : SocketInfo → ℕ
upd i = i.updtime

abbrev pub rcv : ConnSocketInfo → ℕ
rcv i = i.rcv_time

module _ (beat now : ℕ) where
  -- Every socket of the map was heard of at most `beat` ago.
  abbrev pub AllFresh : {A : Type 0} → (A → ℕ) → List (ℕ × A) → Type 0
  AllFresh time [] = Unit {0}
  AllFresh time ((s, i) ∷ m) = (now ≤ time i + beat) × AllFresh time m

  module _ {A : Type 0} (time : A → ℕ) where
    map_set-AllFresh :
        (k : ℕ) (v : A) (m : List (ℕ × A))
        → now ≤ time v + beat
        → AllFresh time m
        → AllFresh time (map_set k v m)
    unfolding map_set
    map_set-AllFresh k v [] h fs = (h, omega arith)
    map_set-AllFresh k v ((k', v') ∷ m) h (f, fs) = elim (Bool-cases (k == k')) [
      | inl e ↦ rw e (h, fs)
      | inr e ↦ rw e (f, map_set-AllFresh k v m h fs)
    ]

    map_change-AllFresh :
        (k : ℕ) (g : A → A) (m : List (ℕ × A))
        → ((a : A) → now ≤ time (g a) + beat)
        → AllFresh time m
        → AllFresh time (map_change k g m)
    unfolding map_change
    map_change-AllFresh k g [] h fs = omega arith
    map_change-AllFresh k g ((k', v) ∷ m) h (f, fs) = elim (Bool-cases (k == k')) [
      | inl e ↦ rw e (h v, fs)
      | inr e ↦ rw e (f, map_change-AllFresh k g m h fs)
    ]

  expire-AllFresh :
      (up : ℕ → Bool) (m : List (ℕ × SocketInfo)) → AllFresh upd (expire up beat now m).0
  unfolding expire
  expire-AllFresh up [] = omega arith
  expire-AllFresh up ((s, i) ∷ m) = elim (Bool-cases (ltb (i.updtime + beat) now)) [
    | inl e ↦ rw e (expire-AllFresh up m)
    | inr e ↦ rw e (ltb→le _ _ e, expire-AllFresh up m)
  ]

  expire_conn-AllFresh :
      (up : ℕ → Bool) (m : List (ℕ × ConnSocketInfo)) → AllFresh rcv (expire_conn up beat now m).0
  unfolding expire_conn
  expire_conn-AllFresh up [] = omega arith
  expire_conn-AllFresh up ((s, i) ∷ m) = elim (Bool-cases (ltb (i.rcv_time + beat) now)) [
    | inl e ↦ rw e (expire_conn-AllFresh up m)
    | inr e ↦ elim (Bool-cases (ltb (i.snd_time + i.idle) now)) [
      | inl quiet ↦ rw (e, quiet) (ltb→le _ _ e, expire_conn-AllFresh up m)
      | inr busy ↦ rw (e, busy) (ltb→le _ _ e, expire_conn-AllFresh up m)
    ]
  ]

  join-AllFresh :
      (ss : List ℕ) (m : List (ℕ × SocketInfo)) → AllFresh upd m → AllFresh upd (join now ss m)
  unfolding join
  join-AllFresh [] m fs = fs
  join-AllFresh (s ∷ ss) m fs = join-AllFresh ss _ (map_set-AllFresh upd s _ m (omega arith) fs)

  heard-AllFresh :
      (ss : List ℕ) (m : List (ℕ × SocketInfo)) → AllFresh upd m → AllFresh upd (heard now ss m)
  unfolding heard
  heard-AllFresh [] m fs = fs
  heard-AllFresh (s ∷ ss) m fs =
      heard-AllFresh ss _ (map_change-AllFresh upd s _ m (λ i. omega arith) fs)

  join_conn-AllFresh :
      (ss : List (ℕ × ℕ)) (m : List (ℕ × ConnSocketInfo))
      → AllFresh rcv m
      → AllFresh rcv (join_conn now ss m)
  unfolding join_conn
  join_conn-AllFresh [] m fs = fs
  join_conn-AllFresh ((s, idle) ∷ ss) m fs =
      join_conn-AllFresh ss _ (map_set-AllFresh rcv s _ m (omega arith) fs)

  heard_conn-AllFresh :
      (ss : List ℕ) (m : List (ℕ × ConnSocketInfo))
      → AllFresh rcv m
      → AllFresh rcv (heard_conn now ss m)
  unfolding heard_conn
  heard_conn-AllFresh [] m fs = fs
  heard_conn-AllFresh (s ∷ ss) m fs =
      heard_conn-AllFresh ss _ (map_change-AllFresh rcv s _ m (λ i. omega arith) fs)

  -- All three maps of every `HeartInfo`.
  abbrev pub InfosFresh : List HeartInfo → Type 0
  InfosFresh [] = Unit {0}
  InfosFresh (h ∷ hs) =
      AllFresh upd h.tcp_info
      × AllFresh upd h.http_info
      × AllFresh rcv h.conn_tcp_info
      × InfosFresh hs

  beat_all-InfosFresh :
      (up : ℕ → Bool) (hs : List HeartInfo) → InfosFresh (beat_all up beat now hs).0
  unfolding beat_all beat_one
  beat_all-InfosFresh up [] = omega arith
  beat_all-InfosFresh up (h ∷ hs) = (
    heard-AllFresh h.data_tcplist _ (join-AllFresh h.co_tcplist _ (expire-AllFresh up h.tcp_info)),
    heard-AllFresh h.data_httplist _
        (join-AllFresh h.co_httplist _ (expire-AllFresh up h.http_info)),
    heard_conn-AllFresh h.data_conn_tcplist _
        (join_conn-AllFresh h.co_conn_tcplist _ (expire_conn-AllFresh up h.conn_tcp_info)),
    beat_all-InfosFresh up hs,
  )

-- After a round of _Run, every server, http and connector socket that is still watched was heard
-- of, or joined, at most a beat ago.
pub run_once-InfosFresh :
    (up : ℕ → Bool) (now : ℕ) (m : HeartBeatMng)
    → InfosFresh m.beat now (run_once up now m).0.heartinfo
unfolding run_once
run_once-InfosFresh up now m = beat_all-InfosFresh m.beat now up m.heartinfo
