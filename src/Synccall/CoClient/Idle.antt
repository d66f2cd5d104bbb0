-- ===== src/Synccall/CoClient/Idle.antt =====
-- Who waits at the connectors of a `CoScClient` (synccall/synccall_coclient.hpp), and what a round
-- of `_Sync` leaves.
use netlib.Common.{
  ℕ, ◌≡◌, ◌≢◌, refl, sym, subst, inl, inr, Bool, true, false, Option, none, some, List, [], ◌∷◌,
  ◌++◌, ◌==◌, ==_refl, if◌then◌else◌, Bool-cases,
}
use netlib.Netio.Writer.{start, post_close}
use netlib.Synccall.CoClient.{
  TcpConnector, CoScClient, Attempt, update, set_connector, resume_if, on_disconnected, close_at,
  close_co, make, lose, linked, reconnect_co,
}

-- No coroutine waits at a connector.
abbrev pub Free : (ℕ → TcpConnector) → Type 0
Free f = (j : ℕ) → (f j).info.co_id ≡ none

-- No coroutine is to be resumed: there are only ids -1.
abbrev pub Quiet : List (ℕ × Option ℕ) → Type 0
Quiet [] = Unit
Quiet ((t, none) ∷ ws) = Quiet ws
Quiet ((t, some i) ∷ ws) = ⊥

abbrev pub Idle : CoScClient → Type 0
Idle c = Free c.connectors × Quiet c.resumes

pub Quiet-append : (ws vs : List (ℕ × Option ℕ)) → Quiet ws → Quiet vs → Quiet (ws ++ vs)
Quiet-append [] vs q q' = q'
Quiet-append ((t, none) ∷ ws) vs q q' = Quiet-append ws vs q q'
Quiet-append ((t, some i) ∷ ws) vs q q' = absurd q

pub update_at :
    (P : TcpConnector → Type 0) (f : ℕ → TcpConnector) (k j : ℕ) (v : TcpConnector)
    → P v
    → (k ≢ j → P (f j))
    → P (update f k v j)
update_at P f k j v h g = elim (Bool-cases (k == j)) [
  | inl e ↦ rw e h
  | inr e ↦ rw e (g (λ q. let e' : (k == j) ≡ true = rw q (==_refl j) in cc))
]

pub Free-update :
    (f : ℕ → TcpConnector) (k : ℕ) (v : TcpConnector)
    → Free f
    → v.info.co_id ≡ none
    → Free (update f k v)
Free-update f k v h e j = update_at (λ n. n.info.co_id ≡ none) f k j v e (λ ne. h j)

close_at-Idle : (s : Option ℕ) (c : CoScClient) → Idle c → Idle (close_at s c)
close_at-Idle none c h = h
close_at-Idle (some k) c h = (Free-update c.connectors k _ h.0 (h.0 k), h.1)

pub close_co-Idle : (c : CoScClient) → Idle c → Idle (close_co c)
unfolding close_co
close_co-Idle c h = close_at-Idle c.socket c h

make-Idle : (fd : ℕ) (c : CoScClient) → Idle c → Idle (make fd c)
make-Idle fd c h = (Free-update c.connectors c.made _ h.0 refl, h.1)

lose-Idle : (k : ℕ) (c : CoScClient) → Idle c → Idle (lose k c)
unfolding on_disconnected
lose-Idle k c h =
    let v = record (c.connectors k) { tcp = post_close (c.connectors k).tcp } in
    let f : Free (update c.connectors k v) = Free-update c.connectors k v h.0 (h.0 k) in
    (
      Free-update (update c.connectors k v) k _ f refl,
      Quiet-append c.resumes _ h.1
          (subst (λ o. Quiet (resume_if (update c.connectors k v k).info.thr_id o)) (sym (f k)) tt),
    )

lost-Idle : (b : Bool) (k : ℕ) (c : CoScClient) → Idle c → Idle (if b then lose k c else c)
lost-Idle true k c h = lose-Idle k c h
lost-Idle false k c h = h

linked-Idle : (t : Attempt) (k : ℕ) (c : CoScClient) → Idle c → Idle (linked t k c)
linked-Idle t k c h =
    let v = record (c.connectors k) { tcp = record (c.connectors k).tcp { flag = start } } in
    let u : Idle (set_connector k v c) = (Free-update c.connectors k v h.0 (h.0 k), h.1) in
    let w = lost-Idle t.lost k (set_connector k v c) u in (Free-update _ k _ w.0 (w.0 k), w.1)

made-Idle : (b : Bool) (p q : CoScClient × Bool) → Idle p.0 → Idle q.0 → Idle (if b then p else q).0
made-Idle true p q h h' = h
made-Idle false p q h h' = h'

pub reconnect_co-Idle : (t : Attempt) (c : CoScClient) → Idle c → Idle (reconnect_co t c).0
unfolding reconnect_co
reconnect_co-Idle t c h =
    let m = make-Idle t.fd c h in
    made-Idle t.connects _ _ (linked-Idle t c.made (make t.fd c) m) (close_co-Idle (make t.fd c) m)
