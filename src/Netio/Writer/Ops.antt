-- ===== src/Netio/Writer/Ops.antt =====
-- `Send`, `_WriteHandler` and `Close` (netio/tsocket_impl.hpp) keep the invariant of the sending
-- side; each `Moved` says which bytes a step adds at the end or takes from the front.
use netlib.Common.{
  ℕ, ◌+◌, ◌%◌, ◌^◌, ◌≤◌, ◌<◌, ◌≡◌, refl, sym, ap, ◌∙◌, inl, inr, Bool, true, false, not, some, List,
  [], ◌++◌, append_assoc, append-nil, arith, ltb, ◌==◌, Bool-cases, ltb→le, length,
}
use netlib.Base.Buffer.{Buffer, length_of, contents, written}
use netlib.Base.Buffer.Valid.{IsValid, length-written, write-Wrote}
use netlib.Netio.Header.{hdrlen, sent_header, length-sent_header}
use netlib.Netio.Reader.{pack_size}
use netlib.Netio.Writer.{
  Socket, Flag, start, stop, close, is_start, max_buffer_size, enqueue, send_buffer, send, too_big,
}
use netlib.Netio.Writer.Valid.{
  Queued, Phase, sending, closed, idle, pending, posted, written2, write2-Queued, pending-write2,
}
use netlib.Netio.Writer.Try.{
  Outcome, sent, failed, nothing, try_send_data-Tried, try_send_data-writing,
}

-- A socket on which `Send` may queue.
data Active (s : Socket) : Type 0 where
  busy :
      s.writing ≡ true
      → s.flag ≡ start
      → posted s.requests ≡ contents s.msgbuffer1
      → 0 < length_of s.msgbuffer1
      → Active s
  free : s.writing ≡ false → s.flag ≡ start → Active s

Phase-Active : {s : Socket} → Phase s → s.flag ≡ start → Active s
Phase-Active (sending w f p n) e = busy w e p n
Phase-Active (closed w f) e = cc
Phase-Active (idle w f p) e = free w f

-- The invariant of a socket, with what is pending.
pub record Sound (s : Socket) (bs : List ℕ) : Type 0 where
  pub queued : Queued s
  pub phase : Phase s
  pub waits : pending s ≡ bs

outcome-Phase : {s s' : Socket} {r : Bool} → Outcome s s' r → s.flag ≡ start → Phase s'
outcome-Phase (sent _ w f p n) e = sending w (λ c. cc) p n
outcome-Phase (failed _ w f) e = closed w f
outcome-Phase (nothing _ w f p) e = idle w (f ∙ e) p

module _ (f : Bool) (s : Socket) (bs : List ℕ) (q : Queued s)
    (room : s.msgbuffer2.pos + length bs ≤ max_buffer_size) where
  enqueue-Sound : Active s → Sound (enqueue f bs s) (pending s ++ bs)
  unfolding enqueue
  enqueue-Sound (busy w e p n) =
      rw (ap (λ (out : Socket × Bool). out.0) (try_send_data-writing f (written2 s bs) w)) (record {
        queued = write2-Queued s bs q room;
        phase = sending w (λ c. cc) p n;
        waits = pending-write2 s bs q room;
      })
  enqueue-Sound (free w e) =
      let t = try_send_data-Tried f (written2 s bs) (write2-Queued s bs q room) w in
      record {
        queued = t.queued;
        phase = outcome-Phase t.outcome e;
        waits = t.kept ∙ pending-write2 s bs q room;
      }

-- What a call of `Send` adds to what is pending.
abbrev pub accepted_by : Bool → List ℕ → List ℕ
accepted_by true bs = bs
accepted_by false bs = []

Active-written2 : {s : Socket} (bs : List ℕ) → Active s → Active (written2 s bs)
Active-written2 bs (busy w e p n) = busy w e p n
Active-written2 bs (free w e) = free w e

refused : {s : Socket} {bs : List ℕ} → Sound s bs → Sound s (bs ++ [])
refused {bs} v = record {
  queued = v.queued;
  phase = v.phase;
  waits = v.waits ∙ sym (append-nil bs);
}

is_start-start : (g : Flag) → not (is_start g) ≡ false → g ≡ start
is_start-start start h = refl
is_start-start stop h = cc
is_start-start close h = cc

module _ (f : Bool) {s : Socket} {bs : List ℕ} (v : Sound s bs) where
  -- `Send(data, len)` queues the framed message whole, or nothing.
  pub send-Sound :
      (now : ℕ) (d : List ℕ)
      → Sound
          (send f now d s).0
          (bs ++ accepted_by (send f now d s).1 (sent_header now (length d) ++ d))
  unfolding send
  send-Sound now d = elim (Bool-cases (length d == 0)) [
    | inl e ↦ rw e (refused v)
    | inr e ↦ elim (Bool-cases (ltb pack_size (length d))) [
      | inl big ↦ rw (e, big) (refused v)
      | inr fits ↦ elim (Bool-cases (not (is_start s.flag))) [
        | inl shut ↦ rw (e, fits, shut) (refused v)
        | inr on ↦
            elim (Bool-cases
              (ltb max_buffer_size ((s.msgbuffer2.pos + (length d + hdrlen) % 2 ^ 32) % 2 ^ 32))) [
                | inl full ↦ rw (e, fits, on, full) (refused v)
                | inr space ↦
                    rw (e, fits, on, space)
                      (queued_message (ltb→le _ _ fits) (is_start-start _ on) (ltb→le _ _ space))
              ]
      ]
    ]
  ]
    where
      queued_message :
          length d ≤ pack_size
          → s.flag ≡ start
          → (s.msgbuffer2.pos + (length d + hdrlen) % 2 ^ 32) % 2 ^ 32 ≤ max_buffer_size
          → Sound
              (enqueue f d (written2 s (sent_header now (length d))))
              (bs ++ (sent_header now (length d) ++ d))
      queued_message fits on space =
          let hdr = sent_header now (length d) in
          let room : s.msgbuffer2.pos + length hdr + length d ≤ max_buffer_size =
            omega (arith, length-sent_header now (length d), v.queued.small2) in
          let w = write-Wrote hdr v.queued.valid2 (omega arith) in
          let e : pending (written2 s hdr) ++ d ≡ bs ++ (hdr ++ d) =
            ap (λ ps. ps ++ d)
              (pending-write2 s hdr v.queued (omega arith) ∙ ap (λ ps. ps ++ hdr) v.waits)
            ∙ append_assoc bs hdr d in
          rw (← e) (
            enqueue-Sound f (written2 s hdr) d (write2-Queued s hdr v.queued (omega arith))
              (omega (arith, w.pos_moved)) (Active-written2 hdr (Phase-Active v.phase on)))

  -- `Send(buffer)` queues the bytes written to the buffer, or nothing.
  pub send_buffer-Sound :
      (b : Buffer)
      → IsValid b
      → b.pos < 2 ^ 31
      → Sound
          (send_buffer f (some b) s).0
          (bs ++ accepted_by (send_buffer f (some b) s).1 (written b))
  unfolding send_buffer
  send_buffer-Sound b ok half = elim (Bool-cases (length_of b == 0)) [
    | inl e ↦ rw e (refused v)
    | inr e ↦ elim (Bool-cases (too_big b.pos)) [
      | inl big ↦ rw (e, big) (refused v)
      | inr fits ↦ elim (Bool-cases (not (is_start s.flag))) [
        | inl shut ↦ rw (e, fits, shut) (refused v)
        | inr on ↦ elim (Bool-cases (ltb max_buffer_size ((s.msgbuffer2.pos + b.pos) % 2 ^ 32))) [
          | inl full ↦ rw (e, fits, on, full) (refused v)
          | inr space ↦
              rw (e, fits, on, space, ← v.waits)
                (enqueue-Sound f s (written b) v.queued
                  (omega (arith, length-written ok, ltb→le _ _ space, v.queued.small2))
                  (Phase-Active v.phase (is_start-start _ on)))
        ]
      ]
    ]
  ]
