-- ===== src/Netio/Writer/Valid.antt =====
-- The invariant of the two send buffers, and what each step of netio/tsocket_impl.hpp does to the
-- bytes that wait in them.
use netlib.Common.{
  ℕ, ◌+◌, ◌≤◌, ◌<◌, ◌≡◌, ◌≢◌, sym, ap, ◌∙◌, true, false, List, [], ◌∷◌, ◌++◌, append_assoc, arith,
  length,
}
use netlib.Base.Buffer.{length_of, write, contents}
use netlib.Base.Buffer.Valid.{IsValid, write-Wrote, contents-write}
use netlib.Netio.Writer.{
  Socket, start, close, Request, send_some, shutdown_wr, close_socket, max_buffer_size, post_close,
}

-- The bytes accepted and not yet taken by the system, in order.
abbrev pub pending : Socket → List ℕ
pending s = contents s.msgbuffer1 ++ contents s.msgbuffer2

-- Both buffers are sound, `msgbuffer2` is only appended to, and neither outgrows the limit.
pub record Queued (s : Socket) : Type 0 where
  pub valid1 : IsValid s.msgbuffer1
  pub valid2 : IsValid s.msgbuffer2
  pub unread2 : s.msgbuffer2.offset ≡ 0
  pub small1 : s.msgbuffer1.pos ≤ max_buffer_size
  pub small2 : s.msgbuffer2.pos ≤ max_buffer_size

-- The bytes of the latest write that was posted.
abbrev pub posted : List Request → List ℕ
posted [] = []
posted (send_some bs ∷ qs) = bs
posted (shutdown_wr ∷ qs) = posted qs
posted (close_socket ∷ qs) = posted qs

-- A write is outstanding, and is of what `msgbuffer1` holds; or the socket is closed; or it is
-- open and nothing waits.
pub data Phase (s : Socket) : Type 0 where
  sending :
      s.writing ≡ true
      → s.flag ≢ close
      → posted s.requests ≡ contents s.msgbuffer1
      → 0 < length_of s.msgbuffer1
      → Phase s
  closed : s.writing ≡ false → s.flag ≡ close → Phase s
  idle : s.writing ≡ false → s.flag ≡ start → pending s ≡ [] → Phase s

pub post_close-Queued : {s : Socket} → Queued s → Queued (post_close s)
unfolding post_close
post_close-Queued q = ground arith

pub pending-post_close : (s : Socket) → pending (post_close s) ≡ pending s
unfolding post_close
pending-post_close s = ground arith

pub post_close-closed :
    (s : Socket)
    → s.writing ≡ false
    → ((post_close s).flag ≡ close) × ((post_close s).writing ≡ false)
unfolding post_close
post_close-closed s h = ground arith

-- Bytes written to `msgbuffer2` go to the end of what is pending.
abbrev pub written2 : Socket → List ℕ → Socket
written2 s bs = record s { msgbuffer2 = write s.msgbuffer2 bs }

module _ (s : Socket) (bs : List ℕ) (q : Queued s) where
  pub write2-Queued : s.msgbuffer2.pos + length bs ≤ max_buffer_size → Queued (written2 s bs)
  write2-Queued h =
      let w = write-Wrote bs q.valid2 (omega arith) in
      record {
        valid1 = q.valid1;
        valid2 = w.valid;
        unread2 = w.offset_kept ∙ q.unread2;
        small1 = q.small1;
        small2 = omega (arith, w.pos_moved);
      }

  pub pending-write2 :
      s.msgbuffer2.pos + length bs ≤ max_buffer_size → pending (written2 s bs) ≡ pending s ++ bs
  pending-write2 h =
      ap (◌++◌ (contents s.msgbuffer1)) (contents-write bs q.valid2 (omega arith))
      ∙ sym (append_assoc (contents s.msgbuffer1) (contents s.msgbuffer2) bs)
