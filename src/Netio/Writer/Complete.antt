-- ===== src/Netio/Writer/Complete.antt =====
-- `_WriteHandler` and `Close` (netio/tsocket_impl.hpp): a completed write takes its bytes from the
-- front of what is pending, and nothing else drops any.
use netlib.Common.{
  ℕ, zero, suc, drop-append, suc-ne-zero, subst, ◌≤◌, ◌≡◌, ◌≢◌, refl, sym, ap, ◌∙◌, ◌⊎◌, inl, inr,
  Bool, true, false, List, ◌∷◌, ◌++◌, arith, length, drop,
}
use netlib.Base.Buffer.{Buffer, contents, cut_data}
use netlib.Base.Buffer.Valid.{cut_data-enough}
use netlib.Netio.Writer.{
  Socket, Flag, Request, start, stop, close, post_close, settle, write_handler, request,
  shutdown_wr,
}
use netlib.Netio.Writer.Valid.{
  Queued, Phase, sending, closed, idle, pending, posted, post_close-Queued, post_close-closed,
  pending-post_close,
}
use netlib.Netio.Writer.Try.{Outcome, sent, failed, nothing, Tried, try_send_data-Tried}
use netlib.Netio.Writer.Ops.{Sound}

pub post_close-writing :
    (s : Socket) → s.writing ≡ true → s.flag ≢ close → post_close s ≡ record s { flag = stop }
unfolding post_close
post_close-writing s w n = ground arith

pub post_close-close : (s : Socket) → s.flag ≡ close → post_close s ≡ s
unfolding post_close
post_close-close s e = ground arith

post_close-Phase : {s : Socket} → Phase s → Phase (post_close s)
post_close-Phase {s} (sending w f p n) = rw (post_close-writing s w f) (sending w (λ c. cc) p n)
post_close-Phase {s} (closed w f) = rw (post_close-close s f) (closed w f)
post_close-Phase {s} (idle w f p) = let (shut, quiet) = post_close-closed s w in closed quiet shut

-- What is known while a write is outstanding.
pub Phase-sending :
    {s : Socket}
    → Phase s
    → s.writing ≡ true
    → (s.flag ≢ close) × (posted s.requests ≡ contents s.msgbuffer1)
Phase-sending (sending w f p n) e = (f, p)
Phase-sending (closed w f) e = cc
Phase-sending (idle w f p) e = cc

pos-cut_data : (b : Buffer) (n : ℕ) → (cut_data b n).pos ≡ b.pos
unfolding cut_data
pos-cut_data b n = ground arith

with_writing :
    {s : Socket} {w : Bool} {qs : List Request}
    → Queued s
    → Queued (record s { writing = w; requests = qs })
with_writing q = record {
  valid1 = q.valid1;
  valid2 = q.valid2;
  unread2 = q.unread2;
  small1 = q.small1;
  small2 = q.small2;
}

pub settle-sending : (s : Socket) → settle (s, true) ≡ s
unfolding settle
settle-sending s = refl

pub settle-start : (s : Socket) → s.flag ≡ start → settle (s, false) ≡ s
unfolding settle
settle-start s e = ground arith

pub settle-quiet :
    (s : Socket) → s.flag ≢ start → settle (s, false) ≡ post_close (request shutdown_wr s)
unfolding settle
settle-quiet s n = ground arith

-- Closing a socket with no write outstanding.
closing-Sound :
    (s : Socket) (qs : List Request)
    → Queued s
    → Sound (post_close (record s { writing = false; requests = qs })) (pending s)
closing-Sound s qs q =
    let s' = record s { writing = false; requests = qs } in
    let (flag, quiet) = post_close-closed s' refl in
    record {
      queued = post_close-Queued (with_writing q);
      phase = closed quiet flag;
      waits = pending-post_close s';
    }

quiet-Sound :
    (s : Socket)
    → Queued s
    → s.writing ≡ false
    → Phase s ⊎ (s.flag ≢ start)
    → Sound (settle (s, false)) (pending s)
quiet-Sound s q w (inl (sending w' f p n)) = cc
quiet-Sound s q w (inl (closed w' f)) = rw (settle-quiet s (λ e. cc)) (
    subst
      (λ b.
        Sound (post_close (record s { writing = b; requests = shutdown_wr ∷ s.requests }))
          (pending s))
      (sym w) (closing-Sound s (shutdown_wr ∷ s.requests) q))
quiet-Sound s q w (inl (idle w' f p)) =
    rw (settle-start s f) (record { queued = q; phase = idle w f p; waits = refl })
quiet-Sound s q w (inr n) = rw (settle-quiet s n) (
    subst
      (λ b.
        Sound (post_close (record s { writing = b; requests = shutdown_wr ∷ s.requests }))
          (pending s))
      (sym w) (closing-Sound s (shutdown_wr ∷ s.requests) q))

pub is_start-cases : (g : Flag) → (g ≡ start) ⊎ (g ≢ start)
is_start-cases start = inl refl
is_start-cases stop = inr (λ e. cc)
is_start-cases close = inr (λ e. cc)

settle-Sound :
    (s s' : Socket) (r : Bool)
    → s.flag ≢ close
    → Tried s (s', r)
    → Sound (settle (s', r)) (pending s)
settle-Sound s s' r n t = rw (← t.kept) (ending t.outcome)
  where
    ending : Outcome s s' r → Sound (settle (s', r)) (pending s')
    ending (sent e w f p k) =
        rw (e, settle-sending)
          (record { queued = t.queued; phase = sending w (λ c. n (sym f ∙ c)) p k; waits = refl })
    ending (failed e w f) = rw e (quiet-Sound s' t.queued w (inl (closed w f)))
    ending (nothing e w f p) = elim (is_start-cases s'.flag) [
      | inl on ↦ rw e (quiet-Sound s' t.queued w (inl (idle w on p)))
      | inr off ↦ rw e (quiet-Sound s' t.queued w (inr off))
    ]

-- Cutting a completed write off `msgbuffer1`.
pub cut-Queued :
    {s : Socket} {bs : List ℕ}
    → Sound s bs
    → s.writing ≡ true
    → (n : ℕ) → suc n ≤ length (posted s.requests)
    → Queued (record s { writing = false; msgbuffer1 = cut_data s.msgbuffer1 (suc n) })
cut-Queued {s} v w n h =
    let (flag, now) = Phase-sending v.phase w in
    let (left, ok) = cut_data-enough (suc n) v.queued.valid1 (omega (arith, ap length now)) in
    record {
      valid1 = ok;
      valid2 = v.queued.valid2;
      unread2 = v.queued.unread2;
      small1 = omega (arith, pos-cut_data s.msgbuffer1 (suc n), v.queued.small1);
      small2 = v.queued.small2;
    }

module _ (f : Bool) {s : Socket} {bs : List ℕ} (v : Sound s bs) where
  -- `Close` drops nothing.
  pub post_close-Sound : Sound (post_close s) bs
  post_close-Sound = record {
    queued = post_close-Queued v.queued;
    phase = post_close-Phase v.phase;
    waits = pending-post_close s ∙ v.waits;
  }

  shut : Sound (post_close (record s { writing = false })) bs
  shut = rw (← v.waits) (closing-Sound s s.requests v.queued)

  -- A completed write of `n` bytes, no more than were posted, takes them from the front.
  pub write_handler-Sound :
      (n : ℕ)
      → s.writing ≡ true
      → n ≤ length (posted s.requests)
      → Sound (write_handler f n false s) (drop n bs)
  unfolding write_handler
  write_handler-Sound zero w h = shut
  write_handler-Sound (suc n) w h =
      let (flag, now) = Phase-sending v.phase w in
      let b = s.msgbuffer1 in
      let cut = record s { writing = false; msgbuffer1 = cut_data b (suc n) } in
      let fits : suc n ≤ length (contents b) = omega (arith, ap length now) in
      let (left, ok) = cut_data-enough (suc n) v.queued.valid1 fits in
      let front : pending cut ≡ drop (suc n) bs =
        ap (λ cs. cs ++ contents s.msgbuffer2) left
        ∙ sym (drop-append (suc n) (contents b) (contents s.msgbuffer2) fits)
        ∙ ap (drop (suc n)) v.waits in
      rw (suc-ne-zero n, ← front)
        (settle-Sound cut _ _ flag (try_send_data-Tried f cut (cut-Queued v w n h) refl))

  -- A write that failed closes the socket.
  pub write_handler-error :
      (n : ℕ)
      → s.writing ≡ true
      → Sound (write_handler f n true s) bs × ((write_handler f n true s).flag ≡ close)
  unfolding write_handler
  write_handler-error n w = (shut, (post_close-closed (record s { writing = false }) refl).0)
