-- ===== src/Netio/HeartBeat/Silent.antt =====
-- Which sockets a round of `HeartBeatMng::_Run` (netio/heartbeat.hpp) closes.
use netlib.Common.{
  ℕ, ◌+◌, ◌<◌, ◌≡◌, refl, ◌⊎◌, inl, inr, Bool, true, List, [], ◌∷◌, ◌++◌, ltb, ltb→lt,
  if◌then◌else◌, Bool-cases, arith,
}
use netlib.Netio.HeartBeat.{
  SocketInfo, ConnSocketInfo, HeartInfo, HeartBeatMng, Order, closes, sends, expire, expire_conn,
  beat_one, beat_all, run_once,
}
use netlib.Netio.HeartBeat.Fresh.{upd, rcv}

-- Every socket that is ordered to close has the property.
abbrev pub AllCloses : (ℕ → Type 0) → List Order → Type 0
AllCloses P [] = Unit {0}
AllCloses P (closes s ∷ os) = P s × AllCloses P os
AllCloses P (sends s ∷ os) = AllCloses P os

AllCloses-append :
    (P : ℕ → Type 0) (os os' : List Order)
    → AllCloses P os
    → AllCloses P os'
    → AllCloses P (os ++ os')
AllCloses-append P [] os' h h' = h'
AllCloses-append P (closes s ∷ os) os' (p, h) h' = (p, AllCloses-append P os os' h h')
AllCloses-append P (sends s ∷ os) os' h h' = AllCloses-append P os os' h h'

AllCloses-weaken :
    (P Q : ℕ → Type 0) (os : List Order) → ((s : ℕ) → P s → Q s) → AllCloses P os → AllCloses Q os
AllCloses-weaken P Q [] f h = omega arith
AllCloses-weaken P Q (closes s ∷ os) f (p, h) = (f s p, AllCloses-weaken P Q os f h)
AllCloses-weaken P Q (sends s ∷ os) f h = AllCloses-weaken P Q os f h

module _ (up : ℕ → Bool) (beat now : ℕ) where
  -- The map has the socket `s`, connected, and not heard of for more than `beat`.
  abbrev pub IsSilent : {A : Type 0} → (A → ℕ) → ℕ → List (ℕ × A) → Type 0
  IsSilent time s [] = ⊥
  IsSilent time s ((s', i) ∷ m) =
      ((s ≡ s') × (up s ≡ true) × (time i + beat < now)) ⊎ IsSilent time s m

  closed_if :
      {A : Type 0} (time : A → ℕ) (s : ℕ) (i : A) (m : List (ℕ × A)) (os : List Order)
      → time i + beat < now
      → AllCloses (λ k. IsSilent time k ((s, i) ∷ m)) os
      → AllCloses (λ k. IsSilent time k ((s, i) ∷ m)) (if up s then closes s ∷ os else os)
  closed_if time s i m os late h = elim (Bool-cases (up s)) [
    | inl e ↦ rw e (inl (refl, e, late), h)
    | inr e ↦ rw e h
  ]

  expire-AllCloses :
      (m : List (ℕ × SocketInfo)) → AllCloses (λ s. IsSilent upd s m) (expire up beat now m).1
  unfolding expire
  expire-AllCloses [] = omega arith
  expire-AllCloses ((s, i) ∷ m) =
      let later =
        AllCloses-weaken (λ k. IsSilent upd k m) (λ k. IsSilent upd k ((s, i) ∷ m))
          (expire up beat now m).1 (λ k h. inr h) (expire-AllCloses m) in
      elim (Bool-cases (ltb (i.updtime + beat) now)) [
        | inl e ↦ rw e (closed_if upd s i m _ (ltb→lt _ _ e) later)
        | inr e ↦ rw e later
      ]

  expire_conn-AllCloses :
      (m : List (ℕ × ConnSocketInfo))
      → AllCloses (λ s. IsSilent rcv s m) (expire_conn up beat now m).1
  unfolding expire_conn
  expire_conn-AllCloses [] = omega arith
  expire_conn-AllCloses ((s, i) ∷ m) =
      let later =
        AllCloses-weaken (λ k. IsSilent rcv k m) (λ k. IsSilent rcv k ((s, i) ∷ m))
          (expire_conn up beat now m).1 (λ k h. inr h) (expire_conn-AllCloses m) in
      elim (Bool-cases (ltb (i.rcv_time + beat) now)) [
        | inl e ↦ rw e (closed_if rcv s i m _ (ltb→lt _ _ e) later)
        | inr e ↦ elim (Bool-cases (ltb (i.snd_time + i.idle) now)) [
          | inl quiet ↦ rw (e, quiet) later
          | inr busy ↦ rw (e, busy) later
        ]
      ]

  -- Silent in one of the maps of one of the `HeartInfo`s.
  abbrev pub SilentIn : ℕ → List HeartInfo → Type 0
  SilentIn s [] = ⊥
  SilentIn s (h ∷ hs) =
      (IsSilent upd s h.tcp_info ⊎ (IsSilent upd s h.http_info ⊎ IsSilent rcv s h.conn_tcp_info))
      ⊎ SilentIn s hs

  beat_all-AllCloses :
      (hs : List HeartInfo) → AllCloses (λ s. SilentIn s hs) (beat_all up beat now hs).1
  unfolding beat_all beat_one
  beat_all-AllCloses [] = omega arith
  beat_all-AllCloses (h ∷ hs) =
      let P : ℕ → Type 0 = λ s. SilentIn s (h ∷ hs) in
      let o1 = (expire up beat now h.tcp_info).1 in
      let o2 = (expire up beat now h.http_info).1 in
      let o3 = (expire_conn up beat now h.conn_tcp_info).1 in
      let later = (beat_all up beat now hs).1 in
      AllCloses-append P (o1 ++ (o2 ++ o3)) later
        (AllCloses-append P o1 (o2 ++ o3)
          (AllCloses-weaken (λ s. IsSilent upd s h.tcp_info) P o1 (λ s k. inl (inl k))
            (expire-AllCloses h.tcp_info))
          (AllCloses-append P o2 o3
            (AllCloses-weaken (λ s. IsSilent upd s h.http_info) P o2 (λ s k. inl (inr (inl k)))
              (expire-AllCloses h.http_info))
            (AllCloses-weaken (λ s. IsSilent rcv s h.conn_tcp_info) P o3 (λ s k. inl (inr (inr k)))
              (expire_conn-AllCloses h.conn_tcp_info))))
        (AllCloses-weaken (λ s. SilentIn s hs) P later (λ s k. inr k) (beat_all-AllCloses hs))

-- A round of _Run closes only sockets that are connected and whose entry in one of the maps was
-- last updated more than a beat ago.
pub run_once-AllCloses :
    (up : ℕ → Bool) (now : ℕ) (m : HeartBeatMng)
    → AllCloses (λ s. SilentIn up m.beat now s m.heartinfo) (run_once up now m).1
unfolding run_once
run_once-AllCloses up now m = beat_all-AllCloses up m.beat now m.heartinfo
