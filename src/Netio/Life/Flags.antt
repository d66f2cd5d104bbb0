-- ===== src/Netio/Life/Flags.antt =====
-- How the state of a `TcpBaseSocket` (netio/tsocket_impl.hpp) moves: a socket that is not started
-- is not started again, and a closed one stays closed.
use netlib.Common.{
  ℕ, ◌≡◌, refl, sym, subst, Bool, true, false, Bool-cases, inl, inr, length, not, ltb, ◌==◌, add32,
  List, some, if◌then◌else◌,
}
use netlib.Base.Buffer.{Buffer, length_of, write, cut_data, written}
use netlib.Netio.Header.{sent_header, hdrlen}
use netlib.Netio.Reader.{pack_size}
use netlib.Netio.Writer.{
  too_big, max_buffer_size, Flag, start, stop, close, Socket, is_start, is_close, request,
  close_socket, shutdown_wr, post_close, refill, post_send, try_send_data, enqueue, send,
  send_buffer, settle, write_handler,
}

pub record Later (s s' : Socket) : Type 0 where
  pub off : is_start s'.flag ≡ true → is_start s.flag ≡ true
  pub shut : is_close s.flag ≡ true → is_close s'.flag ≡ true

same : (s s' : Socket) → s'.flag ≡ s.flag → Later s s'
same s s' e = record {
  off = λ h. subst (λ f. is_start f ≡ true) e h;
  shut = λ h. subst (λ f. is_close f ≡ true) (sym e) h;
}

chain : (s t u : Socket) → Later s t → Later t u → Later s u
chain s t u h k = record { off = λ e. h.off (k.off e); shut = λ e. k.shut (h.shut e) }

choose : (b : Bool) (s t u : Socket) → Later s t → Later s u → Later s (if b then t else u)
choose true s t u h k = h
choose false s t u h k = k

choose₂ :
    (b : Bool) (s : Socket) (p q : Socket × Bool)
    → Later s p.0
    → Later s q.0
    → Later s (if b then p else q).0
choose₂ true s p q h k = h
choose₂ false s p q h k = k

moved : (s s' : Socket) → is_start s'.flag ≡ false → is_close s.flag ≡ false → Later s s'
moved s s' e live = record { off = λ h. cc; shut = λ h. cc }

pub post_close-Later : (s : Socket) → Later s (post_close s)
unfolding post_close
post_close-Later s = elim (Bool-cases (is_close s.flag)) [
  | inl e ↦ rw e (same s s refl)
  | inr e ↦ rw e (
      choose s.writing s (record s { flag = stop })
        (request close_socket (record s { flag = close })) (moved s _ refl e) (moved s _ refl e))
]

-- After `_Close` the socket is not started.
pub post_close-off : (s : Socket) → is_start (post_close s).flag ≡ false
unfolding post_close
post_close-off s = off s.flag s.writing
  where
    off :
        (f : Flag) (b : Bool)
        → is_start
            (if is_close f
              then record s { flag = f }
              else if b
              then record s { flag = stop }
              else request close_socket (record s { flag = close })).flag
          ≡ false
    off start true = refl
    off start false = refl
    off stop true = refl
    off stop false = refl
    off close b = refl

refill-Later : (s : Socket) → Later s (refill s)
unfolding refill
refill-Later s = choose _ s _ s (same s _ refl) (same s s refl)

post_send-Later : (f : Bool) (s : Socket) → Later s (post_send f s).0
unfolding post_send
post_send-Later f s =
    choose₂ _ s _ _ (choose₂ f s _ _ (post_close-Later s) (same s _ refl)) (same s s refl)

try_send_data-Later : (f : Bool) (s : Socket) → Later s (try_send_data f s).0
unfolding try_send_data
try_send_data-Later f s =
    choose₂ s.writing s _ _ (same s s refl)
      (chain s (refill s) _ (refill-Later s) (post_send-Later f (refill s)))

enqueue-Later : (f : Bool) (bs : List ℕ) (s : Socket) → Later s (enqueue f bs s)
unfolding enqueue
enqueue-Later f bs s =
    let q = record s { msgbuffer2 = write s.msgbuffer2 bs } in
    chain s q _ (same s q refl) (try_send_data-Later f q)

-- Four tests that refuse.
abbrev refused : Bool → Bool → Bool → Bool → Socket → Socket → Socket × Bool
refused a b c d s t =
    if a
    then (s, false)
    else if b
    then (s, false)
    else if c
    then (s, false)
    else if d
    then (s, false)
    else (t, true)

guarded : (a b c d : Bool) (s t : Socket) → Later s t → Later s (refused a b c d s t).0
guarded true b c d s t h = same s s refl
guarded false true c d s t h = same s s refl
guarded false false true d s t h = same s s refl
guarded false false false true s t h = same s s refl
guarded false false false false s t h = h

pub send-Later : (f : Bool) (now : ℕ) (d : List ℕ) (s : Socket) → Later s (send f now d s).0
unfolding send
send-Later f now d s =
    let q = record s { msgbuffer2 = write s.msgbuffer2 (sent_header now (length d)) } in
    guarded (length d == 0) (ltb pack_size (length d)) (not (is_start s.flag))
      (ltb max_buffer_size (add32 s.msgbuffer2.pos (add32 (length d) hdrlen))) s (enqueue f d q)
      (chain s q _ (same s q refl) (enqueue-Later f d q))

pub send_buffer-Later : (f : Bool) (b : Buffer) (s : Socket) → Later s (send_buffer f (some b) s).0
unfolding send_buffer
send_buffer-Later f b s =
    guarded (length_of b == 0) (too_big b.pos) (not (is_start s.flag))
      (ltb max_buffer_size (add32 s.msgbuffer2.pos b.pos)) s (enqueue f (written b) s)
      (enqueue-Later f (written b) s)

settle-Later : (s : Socket) (r : Bool) → Later s (settle (s, r))
unfolding settle
settle-Later s r =
    let q = request shutdown_wr s in
    choose _ s _ s (chain s q _ (same s q refl) (post_close-Later q)) (same s s refl)

pub write_handler-Later :
    (f : Bool) (n : ℕ) (error : Bool) (s : Socket) → Later s (write_handler f n error s)
unfolding write_handler
write_handler-Later f n error s =
    let q = record s { writing = false } in
    let cut = record q { msgbuffer1 = cut_data s.msgbuffer1 n } in
    let shut = chain s q _ (same s q refl) (post_close-Later q) in
    choose error s _ _ shut (
      choose _ s _ _ shut (
        chain s cut _ (same s cut refl) (
          chain cut (try_send_data f cut).0 _ (try_send_data-Later f cut)
            (settle-Later (try_send_data f cut).0 (try_send_data f cut).1))))
