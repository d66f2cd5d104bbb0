-- ===== src/Netio/HeartBeat/Keeps.antt =====
-- Which sockets a round of `HeartBeatMng::_Run` (netio/heartbeat.hpp) goes on watching.
use netlib.Common.{
  ℕ, ◌+◌, ◌≤◌, ◌≡◌, sym, ◌∙◌, ◌⊎◌, inl, inr, Bool, List, [], ◌∷◌, ltb, le→ltb, ◌==◌, ==_iff,
  Bool-cases,
}
use netlib.Netio.HeartBeat.{
  SocketInfo, HeartInfo, map_set, map_change, expire, join, heard, beat_one,
}

-- The map has the socket `s`.
abbrev pub HasKey : {A : Type 0} → ℕ → List (ℕ × A) → Type 0
HasKey s [] = ⊥
HasKey s ((s', i) ∷ m) = (s ≡ s') ⊎ HasKey s m

-- The map has the socket `s`, heard of at most `beat` ago.
abbrev pub HasFresh : ℕ → ℕ → ℕ → List (ℕ × SocketInfo) → Type 0
HasFresh beat now s [] = ⊥
HasFresh beat now s ((s', i) ∷ m) = ((s ≡ s') × (now ≤ i.updtime + beat)) ⊎ HasFresh beat now s m

module _ {A : Type 0} (s k : ℕ) where
  map_set-HasKey : (v : A) (m : List (ℕ × A)) → HasKey s m → HasKey s (map_set k v m)
  unfolding map_set
  map_set-HasKey v [] h = absurd h
  map_set-HasKey v ((k', v') ∷ m) h = elim (Bool-cases (k == k')) [
    | inl e ↦
        rw e (elim h [ inl same ↦ inl (same ∙ sym ((==_iff k k').0 e)) | inr rest ↦ inr rest ])
    | inr e ↦ rw e (elim h [ inl same ↦ inl same | inr rest ↦ inr (map_set-HasKey v m rest) ])
  ]

  map_change-HasKey : (g : A → A) (m : List (ℕ × A)) → HasKey s m → HasKey s (map_change k g m)
  unfolding map_change
  map_change-HasKey g [] h = absurd h
  map_change-HasKey g ((k', v) ∷ m) h = elim (Bool-cases (k == k')) [
    | inl e ↦ rw e h
    | inr e ↦ rw e (elim h [ inl same ↦ inl same | inr rest ↦ inr (map_change-HasKey g m rest) ])
  ]

module _ (up : ℕ → Bool) (beat now s : ℕ) where
  expire-HasKey :
      (m : List (ℕ × SocketInfo)) → HasFresh beat now s m → HasKey s (expire up beat now m).0
  unfolding expire
  expire-HasKey [] h = absurd h
  expire-HasKey ((s', i) ∷ m) (inl (same, fresh)) =
      rw (le→ltb (i.updtime + beat) now fresh) (inl same)
  expire-HasKey ((s', i) ∷ m) (inr h) = elim (Bool-cases (ltb (i.updtime + beat) now)) [
    | inl e ↦ rw e (expire-HasKey m h)
    | inr e ↦ rw e (inr (expire-HasKey m h))
  ]

  join-HasKey : (ss : List ℕ) (m : List (ℕ × SocketInfo)) → HasKey s m → HasKey s (join now ss m)
  unfolding join
  join-HasKey [] m h = h
  join-HasKey (k ∷ ss) m h = join-HasKey ss _ (map_set-HasKey s k _ m h)

  heard-HasKey : (ss : List ℕ) (m : List (ℕ × SocketInfo)) → HasKey s m → HasKey s (heard now ss m)
  unfolding heard
  heard-HasKey [] m h = h
  heard-HasKey (k ∷ ss) m h = heard-HasKey ss _ (map_change-HasKey s k _ m h)

  -- A round of _Run goes on watching every server socket that was heard of at most a beat ago,
  -- whatever joined or sent data in the meantime.
  beat_one-HasKey :
      (h : HeartInfo)
      → HasFresh beat now s h.tcp_info
      → HasKey s (beat_one up beat now h).0.tcp_info
  unfolding beat_one
  beat_one-HasKey h fresh =
      heard-HasKey h.data_tcplist _ (join-HasKey h.co_tcplist _ (expire-HasKey h.tcp_info fresh))
