-- ===== src/Netio/Writer/Graceful.antt =====
-- `TcpBaseSocket` (netio/tsocket_impl.hpp) without failures: a socket that is closed has nothing
-- left to send.
use netlib.Common.{
  ℕ, suc, suc-ne-zero, ◌≤◌, ◌≡◌, ◌≢◌, refl, sym, ap, ◌∙◌, inl, inr, Bool, true, false, not, some,
  List, [], ltb, ◌==◌, if◌then◌else◌, Bool-cases, add32, length,
}
use netlib.Base.Buffer.{Buffer, length_of, written, write, cut_data}
use netlib.Netio.Header.{hdrlen, sent_header}
use netlib.Netio.Reader.{pack_size}
use netlib.Netio.Writer.{
  Socket, stop, close, is_start, max_buffer_size, post_close, refill, post_send, try_send_data,
  enqueue, send_buffer, send, too_big, settle, write_handler, request, shutdown_wr,
}
use netlib.Netio.Writer.Valid.{Phase, sending, closed, idle, pending, pending-post_close, posted}
use netlib.Netio.Writer.Try.{Outcome, sent, failed, nothing, try_send_data-Tried}
use netlib.Netio.Writer.Ops.{Sound}
use netlib.Netio.Writer.Complete.{
  post_close-writing, settle-sending, settle-start, settle-quiet, is_start-cases, cut-Queued,
  Phase-sending,
}

-- A closed socket has nothing left to send.
pub record Drained (s : Socket) : Type 0 where
  pub drained : s.flag ≡ close → pending s ≡ []

refill-flag : (s : Socket) → (refill s).flag ≡ s.flag
unfolding refill
refill-flag s = elim (Bool-cases (length_of s.msgbuffer1 == 0)) [
  | inl e ↦ rw e refl
  | inr e ↦ rw e refl
]

post_send-flag : (s : Socket) → (post_send false s).0.flag ≡ s.flag
unfolding post_send
post_send-flag s = elim (Bool-cases (ltb 0 (length_of s.msgbuffer1))) [
  | inl e ↦ rw e refl
  | inr e ↦ rw e refl
]

pub try_send_data-flag : (s : Socket) → (try_send_data false s).0.flag ≡ s.flag
unfolding try_send_data
try_send_data-flag s = elim (Bool-cases s.writing) [
  | inl e ↦ ap (λ (out : Socket × Bool). out.0.flag) (ap (pick s) e)
  | inr e ↦
      ap (λ (out : Socket × Bool). out.0.flag) (ap (pick s) e)
      ∙ post_send-flag (refill s)
      ∙ refill-flag s
]
  where
    pick : Socket → Bool → Socket × Bool
    pick s b = if b then (s, true) else post_send false (refill s)

enqueue-flag : (bs : List ℕ) (s : Socket) → (enqueue false bs s).flag ≡ s.flag
unfolding enqueue
enqueue-flag bs s = try_send_data-flag (record s { msgbuffer2 = write s.msgbuffer2 bs })

-- What a refused `Send` leaves, and what an accepted one needs.
pub send-flag : (now : ℕ) (d : List ℕ) (s : Socket) → (send false now d s).0.flag ≡ s.flag
unfolding send
send-flag now d s = elim (Bool-cases (length d == 0)) [
  | inl e ↦ rw e refl
  | inr e ↦ elim (Bool-cases (ltb pack_size (length d))) [
    | inl big ↦ rw (e, big) refl
    | inr fits ↦ elim (Bool-cases (not (is_start s.flag))) [
      | inl shut ↦ rw (e, fits, shut) refl
      | inr on ↦
          elim (Bool-cases
            (ltb max_buffer_size (add32 s.msgbuffer2.pos (add32 (length d) hdrlen)))) [
              | inl full ↦ rw (e, fits, on, full) refl
              | inr space ↦
                  rw (e, fits, on, space)
                    (enqueue-flag d
                      (record s { msgbuffer2 = write s.msgbuffer2 (sent_header now (length d)) }))
            ]
    ]
  ]
]

pub send-closed :
    (f : Bool) (now : ℕ) (d : List ℕ) (s : Socket) → s.flag ≡ close → send f now d s ≡ (s, false)
unfolding send
send-closed f now d s e = elim (Bool-cases (length d == 0)) [
  | inl e' ↦ rw e' refl
  | inr e' ↦ elim (Bool-cases (ltb pack_size (length d))) [
    | inl big ↦ rw (e', big) refl
    | inr fits ↦ rw (e', fits, ap (λ g. not (is_start g)) e) refl
  ]
]

pub send_buffer-flag : (b : Buffer) (s : Socket) → (send_buffer false (some b) s).0.flag ≡ s.flag
unfolding send_buffer
send_buffer-flag b s = elim (Bool-cases (length_of b == 0)) [
  | inl e ↦ rw e refl
  | inr e ↦ elim (Bool-cases (too_big b.pos)) [
    | inl big ↦ rw (e, big) refl
    | inr fits ↦ elim (Bool-cases (not (is_start s.flag))) [
      | inl shut ↦ rw (e, fits, shut) refl
      | inr on ↦ elim (Bool-cases (ltb max_buffer_size (add32 s.msgbuffer2.pos b.pos))) [
        | inl full ↦ rw (e, fits, on, full) refl
        | inr space ↦ rw (e, fits, on, space) (enqueue-flag (written b) s)
      ]
    ]
  ]
]

pub send_buffer-closed :
    (f : Bool) (b : Buffer) (s : Socket) → s.flag ≡ close → send_buffer f (some b) s ≡ (s, false)
unfolding send_buffer
send_buffer-closed f b s e = elim (Bool-cases (length_of b == 0)) [
  | inl e' ↦ rw e' refl
  | inr e' ↦ elim (Bool-cases (too_big b.pos)) [
    | inl big ↦ rw (e', big) refl
    | inr fits ↦ rw (e', fits, ap (λ g. not (is_start g)) e) refl
  ]
]

module _ {s : Socket} {bs : List ℕ} (v : Sound s bs) (dr : Drained s) where
  pub send-Drained : (now : ℕ) (d : List ℕ) → Drained (send false now d s).0
  send-Drained now d = record {
    drained = λ h.
        let e : s.flag ≡ close = sym (send-flag now d s) ∙ h in
        ap (λ (out : Socket × Bool). pending out.0) (send-closed false now d s e) ∙ dr.drained e;
  }

  pub send_buffer-Drained : (b : Buffer) → Drained (send_buffer false (some b) s).0
  send_buffer-Drained b = record {
    drained = λ h.
        let e : s.flag ≡ close = sym (send_buffer-flag b s) ∙ h in
        ap (λ (out : Socket × Bool). pending out.0) (send_buffer-closed false b s e) ∙ dr.drained e;
  }

  -- Closing a started socket with nothing outstanding finds nothing waiting.
  pub post_close-Drained : Drained (post_close s)
  post_close-Drained = record { drained = λ h. pending-post_close s ∙ from v.phase h }
    where
      stop-close : stop ≡ close → ⊥
      stop-close e = cc

      from : Phase s → (post_close s).flag ≡ close → pending s ≡ []
      from (sending w f p n) h =
          absurd (stop-close (sym (ap (λ t. t.flag) (post_close-writing s w f)) ∙ h))
      from (closed w f) h = dr.drained f
      from (idle w f p) h = p

settle-Drained :
    (s s' : Socket) (r : Bool)
    → s.flag ≢ close
    → s'.flag ≡ s.flag
    → Outcome s s' r
    → Drained (settle (s', r))
settle-Drained s s' r n keep (sent e w f p k) =
    rw (e, settle-sending) (record { drained = λ h. absurd (n (sym f ∙ h)) })
settle-Drained s s' r n keep (failed e w f) = absurd (n (sym keep ∙ f))
settle-Drained s s' r n keep (nothing e w f none_left) = elim (is_start-cases s'.flag) [
  | inl on ↦ rw (e, settle-start s' on) (record { drained = λ h. none_left })
  | inr off ↦
      rw (e, settle-quiet s' off)
        (record { drained = λ h. pending-post_close (request shutdown_wr s') ∙ none_left })
]

-- A completed write closes the socket only when nothing is left.
pub write_handler-Drained :
    {s : Socket} {bs : List ℕ} (n : ℕ)
    → Sound s bs
    → s.writing ≡ true
    → suc n ≤ length (posted s.requests)
    → Drained (write_handler false (suc n) false s)
unfolding write_handler
write_handler-Drained {s} n v w h =
    let cut = record s { writing = false; msgbuffer1 = cut_data s.msgbuffer1 (suc n) } in
    let (flag, now) = Phase-sending v.phase w in
    let t = try_send_data-Tried false cut (cut-Queued v w n h) refl in
    rw (suc-ne-zero n) (settle-Drained cut _ _ flag (try_send_data-flag cut) t.outcome)
