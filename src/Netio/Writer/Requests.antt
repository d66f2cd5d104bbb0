-- ===== src/Netio/Writer/Requests.antt =====
-- The requests a `TcpBaseSocket` (netio/tsocket_impl.hpp) makes of the service below it: how many
-- writes may be outstanding, and how often the socket is closed.
use netlib.Common.{
  ℕ, suc, ◌+◌, ◌≡◌, refl, sym, ap, subst, ◌∙◌, ◌⊎◌, inl, inr, Bool, true, false, not, ◌&&◌, List,
  [], ◌∷◌, arith, some, length, ltb, ◌==◌, if◌then◌else◌, Bool-cases, add32,
}
use netlib.Base.Buffer.{Buffer, length_of, written, write, cut_data}
use netlib.Netio.Header.{hdrlen, sent_header}
use netlib.Netio.Reader.{pack_size}
use netlib.Netio.Writer.{
  Socket, Flag, Request, send_some, shutdown_wr, close_socket, start, stop, close, is_start,
  is_close, max_buffer_size, post_close, refill, post_send, try_send_data, enqueue, send_buffer,
  send, too_big, settle, write_handler, request,
}

abbrev pub writes : List Request → ℕ
writes [] = 0
writes (send_some bs ∷ qs) = suc (writes qs)
writes (shutdown_wr ∷ qs) = writes qs
writes (close_socket ∷ qs) = writes qs

abbrev pub closings : List Request → ℕ
closings [] = 0
closings (send_some bs ∷ qs) = closings qs
closings (shutdown_wr ∷ qs) = closings qs
closings (close_socket ∷ qs) = suc (closings qs)

abbrev pub one_if : Bool → ℕ
one_if true = 1
one_if false = 0

-- `done` writes have completed.
pub record Counted (done : ℕ) (s : Socket) : Type 0 where
  pub outstanding : writes s.requests ≡ done + one_if s.writing
  pub closed_once : closings s.requests ≡ one_if (is_close s.flag)

is_close-cases : (g : Flag) → (is_close g ≡ true) ⊎ (is_close g ≡ false)
is_close-cases start = inr refl
is_close-cases stop = inr refl
is_close-cases close = inl refl

module _ {n : ℕ} (s : Socket) (c : Counted n s) where
  pub post_close-Counted : Counted n (post_close s)
  unfolding post_close
  post_close-Counted = elim (is_close-cases s.flag) [
    | inl shut ↦ rw shut c
    | inr live ↦ elim (Bool-cases s.writing) [
      | inl busy ↦ rw live (
          subst (λ b. Counted n (pick b)) (sym busy)
            (record { outstanding = c.outstanding; closed_once = c.closed_once ∙ ap one_if live }))
      | inr quiet ↦ rw live (
          subst (λ b. Counted n (pick b)) (sym quiet)
            (record {
              outstanding = c.outstanding;
              closed_once = ap suc (c.closed_once ∙ ap one_if live);
            }))
    ]
  ]
    where
      pick : Bool → Socket
      pick b =
          if b then record s { flag = stop } else request close_socket (record s { flag = close })

  refill-Counted : Counted n (refill s)
  unfolding refill
  refill-Counted = elim (Bool-cases (length_of s.msgbuffer1 == 0)) [
    | inl e ↦ rw e (record { outstanding = c.outstanding; closed_once = c.closed_once })
    | inr e ↦ rw e c
  ]

refill-writing : (s : Socket) → (refill s).writing ≡ s.writing
unfolding refill
refill-writing s = elim (Bool-cases (length_of s.msgbuffer1 == 0)) [
  | inl e ↦ rw e refl
  | inr e ↦ rw e refl
]

post_send-Counted :
    {n : ℕ} (f : Bool) (s : Socket) → s.writing ≡ false → Counted n s → Counted n (post_send f s).0
unfolding post_send
post_send-Counted f s w c = elim (Bool-cases (ltb 0 (length_of s.msgbuffer1))) [
  | inl e ↦ elim (Bool-cases f) [
    | inl bad ↦ rw (e, bad) (post_close-Counted s c)
    | inr good ↦
        rw (e, good)
          (record {
            outstanding = omega (arith, c.outstanding, ap one_if w);
            closed_once = c.closed_once;
          })
  ]
  | inr e ↦ rw e c
]

pub try_send_data-Counted :
    {n : ℕ} (f : Bool) (s : Socket) → Counted n s → Counted n (try_send_data f s).0
unfolding try_send_data
try_send_data-Counted {n} f s c = elim (Bool-cases s.writing) [
  | inl e ↦ subst (λ b. Counted n (pick b).0) (sym e) c
  | inr e ↦
      subst (λ b. Counted n (pick b).0) (sym e)
        (post_send-Counted f (refill s) (refill-writing s ∙ e) (refill-Counted s c))
]
  where
    pick : Bool → Socket × Bool
    pick b = if b then (s, true) else post_send f (refill s)

queued-Counted :
    {n : ℕ} {s : Socket} (b : Buffer) → Counted n s → Counted n (record s { msgbuffer2 = b })
queued-Counted b c = record { outstanding = c.outstanding; closed_once = c.closed_once }

enqueue-Counted :
    {n : ℕ} (f : Bool) (bs : List ℕ) (s : Socket) → Counted n s → Counted n (enqueue f bs s)
unfolding enqueue
enqueue-Counted f bs s c = try_send_data-Counted f _ (queued-Counted (write s.msgbuffer2 bs) c)

module _ {n : ℕ} (f : Bool) (s : Socket) (c : Counted n s) where
  pub send-Counted : (now : ℕ) (d : List ℕ) → Counted n (send f now d s).0
  unfolding send
  send-Counted now d =
      let hdr = sent_header now (length d) in
      let queued = record s { msgbuffer2 = write s.msgbuffer2 hdr } in
      elim (Bool-cases (length d == 0)) [
        | inl e ↦ rw e c
        | inr e ↦ elim (Bool-cases (ltb pack_size (length d))) [
          | inl big ↦ rw (e, big) c
          | inr fits ↦ elim (Bool-cases (not (is_start s.flag))) [
            | inl shut ↦ rw (e, fits, shut) c
            | inr on ↦
                elim (Bool-cases
                  (ltb max_buffer_size (add32 s.msgbuffer2.pos (add32 (length d) hdrlen)))) [
                    | inl full ↦ rw (e, fits, on, full) c
                    | inr space ↦
                        rw (e, fits, on, space) (enqueue-Counted f d queued (queued-Counted _ c))
                  ]
          ]
        ]
      ]

  pub send_buffer-Counted : (b : Buffer) → Counted n (send_buffer f (some b) s).0
  unfolding send_buffer
  send_buffer-Counted b = elim (Bool-cases (length_of b == 0)) [
    | inl e ↦ rw e c
    | inr e ↦ elim (Bool-cases (too_big b.pos)) [
      | inl big ↦ rw (e, big) c
      | inr fits ↦ elim (Bool-cases (not (is_start s.flag))) [
        | inl shut ↦ rw (e, fits, shut) c
        | inr on ↦ elim (Bool-cases (ltb max_buffer_size (add32 s.msgbuffer2.pos b.pos))) [
          | inl full ↦ rw (e, fits, on, full) c
          | inr space ↦ rw (e, fits, on, space) (enqueue-Counted f (written b) s c)
        ]
      ]
    ]
  ]

settle-Counted : {n : ℕ} (s : Socket) (r : Bool) → Counted n s → Counted n (settle (s, r))
unfolding settle
settle-Counted s r c = elim (Bool-cases (not r && not (is_start s.flag))) [
  | inl e ↦ rw e (
      post_close-Counted (request shutdown_wr s)
        (record { outstanding = c.outstanding; closed_once = c.closed_once }))
  | inr e ↦ rw e c
]

-- A call of `_WriteHandler` ends the write that was outstanding.
pub write_handler-Counted :
    {k : ℕ} (f : Bool) (n : ℕ) (error : Bool) (s : Socket)
    → s.writing ≡ true
    → Counted k s
    → Counted (suc k) (write_handler f n error s)
unfolding write_handler
write_handler-Counted {k} f n error s w c =
    let quiet : Counted (suc k) (record s { writing = false }) = record {
      outstanding = omega (arith, c.outstanding, ap one_if w);
      closed_once = c.closed_once;
    } in
    elim (Bool-cases error) [
      | inl bad ↦ rw bad (post_close-Counted _ quiet)
      | inr good ↦ elim (Bool-cases (n == 0)) [
        | inl none_taken ↦ rw (good, none_taken) (post_close-Counted _ quiet)
        | inr some_taken ↦
            rw (good, some_taken)
              (settle-Counted _ _ (
                try_send_data-Counted f
                  (record s { writing = false; msgbuffer1 = cut_data s.msgbuffer1 n })
                  (record { outstanding = quiet.outstanding; closed_once = quiet.closed_once })))
      ]
    ]
