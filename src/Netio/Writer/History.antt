-- ===== src/Netio/Writer/History.antt =====
-- A `TcpBaseSocket` (netio/tsocket_impl.hpp) over its whole life: the calls of `Send` and `Close`
-- by the program and of `_WriteHandler` by the service, in any order the locks allow.
use netlib.Common.{
  ℕ, zero, suc, ◌+◌, ◌≤◌, ◌<◌, ◌^◌, ◌≡◌, refl, sym, ap, ◌∙◌, Bool, true, false, List, [], ◌++◌,
  append_assoc, append-nil, arith, some, length, take, take-append, drop, take-append-drop, flatten,
}
use netlib.Base.Buffer.{Buffer, contents, written, new}
use netlib.Base.Buffer.Valid.{IsValid, new-IsValid}
use netlib.Netio.Header.{sent_header}
use netlib.Netio.Reader.{Cut, new_reader, feed}
use netlib.Netio.Reader.Frames.{frames, bodies, AllFit}
use netlib.Netio.Reader.Stream.{AllRead, feed-frames}
use netlib.Netio.Writer.{
  Socket, start, close, is_close, connected, post_close, send, send_buffer, write_handler,
}
use netlib.Netio.Writer.Valid.{idle, pending, posted}
use netlib.Netio.Writer.Ops.{Sound, accepted_by, send-Sound, send_buffer-Sound}
use netlib.Netio.Writer.Complete.{
  post_close-Sound, write_handler-Sound, write_handler-error, Phase-sending,
}
use netlib.Netio.Writer.Requests.{
  writes, closings, one_if, Counted, post_close-Counted, send-Counted, send_buffer-Counted,
  write_handler-Counted,
}
use netlib.Netio.Writer.Graceful.{
  Drained, send-Drained, send_buffer-Drained, post_close-Drained, write_handler-Drained,
}

-- The socket, the bytes the system has taken, the bytes `Send` has accepted, and the number of
-- writes that have ended.
pub record World : Type 0 where
  pub sock : Socket
  pub wire : List ℕ
  pub accepted : List ℕ
  pub ended : ℕ

abbrev pub fresh : World
fresh = record { sock = connected; wire = []; accepted = []; ended = 0 }

-- The socket after a call of `Send`, and what it accepted of `bs`.
abbrev pub sent_to : World → Socket × Bool → List ℕ → World
sent_to w out bs = record w { sock = out.0; accepted = w.accepted ++ accepted_by out.1 bs }

-- One locked section. With `lossy ≡ false` no call below the socket fails, and no write ends
-- with no byte taken.
pub data Step (lossy : Bool) (w : World) : World → Type 0 where
  sends :
      (failed : Bool) (now : ℕ) (d : List ℕ)
      → (lossy ≡ false → failed ≡ false)
      → Step lossy w (sent_to w (send failed now d w.sock) (sent_header now (length d) ++ d))
  sends_buffer :
      (failed : Bool) (b : Buffer)
      → IsValid b
      → b.pos < 2 ^ 31
      → (lossy ≡ false → failed ≡ false)
      → Step lossy w (sent_to w (send_buffer failed (some b) w.sock) (written b))
  -- The service reports that it has written `n` of the bytes that were posted.
  wrote :
      (failed : Bool) (n : ℕ)
      → w.sock.writing ≡ true
      → (lossy ≡ false → 0 < n)
      → n ≤ length (posted w.sock.requests)
      → (lossy ≡ false → failed ≡ false)
      → Step lossy w (record w {
        sock = write_handler failed n false w.sock;
        wire = w.wire ++ take n (posted w.sock.requests);
        ended = suc w.ended;
      })
  write_fails :
      (failed : Bool) (n : ℕ)
      → w.sock.writing ≡ true
      → lossy ≡ true
      → Step lossy w (record w { sock = write_handler failed n true w.sock; ended = suc w.ended })
  closes : Step lossy w (record w { sock = post_close w.sock })

pub data Reach (lossy : Bool) : World → Type 0 where
  opened : Reach lossy fresh
  later : {w w' : World} → Reach lossy w → Step lossy w w' → Reach lossy w'

-- What is on the wire and what is pending make up what was accepted.
record Kept (w : World) : Type 0 where
  rest : List ℕ
  sound : Sound w.sock rest
  whole : w.wire ++ rest ≡ w.accepted

fresh-Kept : Kept fresh
unfolding connected new
fresh-Kept = record {
  rest = [];
  sound = record {
    queued = record {
      valid1 = unfold new in new-IsValid;
      valid2 = new-IsValid;
      unread2 = refl;
      small1 = omega arith;
      small2 = omega arith;
    };
    phase = idle refl refl refl;
    waits = refl;
  };
  whole = refl;
}

appended : {w : World} (k : Kept w) (a : List ℕ) → w.wire ++ (k.rest ++ a) ≡ w.accepted ++ a
appended {w} k a = sym (append_assoc w.wire k.rest a) ∙ ap (λ xs. xs ++ a) k.whole

-- The bytes a completed write has taken are the first ones that were pending.
taken :
    {w : World} (k : Kept w) (n : ℕ)
    → w.sock.writing ≡ true
    → n ≤ length (posted w.sock.requests)
    → (w.wire ++ take n (posted w.sock.requests)) ++ drop n k.rest ≡ w.accepted
taken {w} k n h fits =
    let now = (Phase-sending k.sound.phase h).1 in
    let b1 = contents w.sock.msgbuffer1 in
    let b2 = contents w.sock.msgbuffer2 in
    let front : take n (posted w.sock.requests) ≡ take n k.rest =
      ap (take n) now
      ∙ sym (take-append n b1 b2 (omega (arith, ap length now)))
      ∙ ap (take n) k.sound.waits in
    append_assoc w.wire (take n (posted w.sock.requests)) (drop n k.rest)
    ∙ ap (λ t. w.wire ++ (t ++ drop n k.rest)) front
    ∙ ap (◌++◌ w.wire) (take-append-drop n k.rest)
    ∙ k.whole

Step-Kept : {lossy : Bool} {w w' : World} → Kept w → Step lossy w w' → Kept w'
Step-Kept {w} k (sends failed now d _) = record {
  rest = _;
  sound = send-Sound failed k.sound now d;
  whole = appended k _;
}
Step-Kept {w} k (sends_buffer failed b v small _) = record {
  rest = _;
  sound = send_buffer-Sound failed k.sound b v small;
  whole = appended k _;
}
Step-Kept {w} k (wrote failed n h pos fits _) = record {
  rest = _;
  sound = write_handler-Sound failed k.sound n h fits;
  whole = taken k n h fits;
}
Step-Kept {w} k (write_fails failed n h _) = record {
  rest = _;
  sound = (write_handler-error failed k.sound n h).0;
  whole = k.whole;
}
Step-Kept {w} k closes = record { rest = _; sound = post_close-Sound true k.sound; whole = k.whole }

Reach-Kept : {lossy : Bool} {w : World} → Reach lossy w → Kept w
Reach-Kept opened = fresh-Kept
Reach-Kept (later r s) = Step-Kept (Reach-Kept r) s

-- However Send, Close, completed and failed writes follow one another, the bytes the system has
-- taken followed by the bytes still in the two send buffers are the bytes Send accepted, each once
-- and in order. Buffers given to Send are valid and shorter than 2 ^ 31 bytes.
pub wire-pending :
    {lossy : Bool} {w : World} → Reach lossy w → w.wire ++ pending w.sock ≡ w.accepted
wire-pending {w} r = let k = Reach-Kept r in ap (◌++◌ w.wire) k.sound.waits ∙ k.whole

Step-Drained : {w w' : World} → Kept w → Drained w.sock → Step false w w' → Drained w'.sock
Step-Drained {w} k dr (sends failed now d ok) = rw (ok refl) (send-Drained k.sound dr now d)
Step-Drained {w} k dr (sends_buffer failed b v small ok) =
    rw (ok refl) (send_buffer-Drained k.sound dr b)
Step-Drained {w} k dr (wrote failed zero h pos fits ok) =
    let taken : 0 < 0 = pos refl in absurd (omega arith)
Step-Drained {w} k dr (wrote failed (suc n) h pos fits ok) =
    rw (ok refl) (write_handler-Drained n k.sound h fits)
Step-Drained {w} k dr (write_fails failed n h e) = cc
Step-Drained {w} k dr closes = post_close-Drained k.sound dr

Reach-Drained : {w : World} → Reach false w → Drained w.sock
unfolding connected
Reach-Drained opened = record { drained = λ h. absurd (started h) }
  where
    started : start ≡ close → ⊥
    started e = cc
Reach-Drained (later r s) = Step-Drained (Reach-Kept r) (Reach-Drained r) s

-- If nothing below the socket fails, a socket that is closed has put on the wire every byte that
-- Send accepted, also those that were queued when Close was called. Buffers given to Send are
-- valid and shorter than 2 ^ 31 bytes.
pub wire-closed : {w : World} → Reach false w → w.sock.flag ≡ close → w.wire ≡ w.accepted
wire-closed {w} r h =
    sym (append-nil w.wire) ∙ ap (◌++◌ w.wire) (sym ((Reach-Drained r).drained h)) ∙ wire-pending r

-- From one end to the other: if a socket that was closed with no failure below it has accepted a
-- sequence of framed messages, each of at most M_SOCKET_PACK_SIZE bytes, then the reader of the
-- other side, given the bytes on the wire in any chunks of at most M_SOCKET_READ_SIZE, returns
-- from every call, notifies exactly these messages in order, and never reports a bad stream.
-- Buffers given to Send are valid and shorter than 2 ^ 31 bytes.
pub wire-feed :
    {w : World} (tms : List (ℕ × List ℕ)) (chunks : List (List ℕ))
    → Reach false w
    → w.sock.flag ≡ close
    → w.accepted ≡ frames tms
    → AllFit tms
    → flatten chunks ≡ w.wire
    → AllRead chunks
    → (c : Cut) × (feed new_reader chunks ≡ some c) × (c.msgs ≡ bodies tms) × (c.ok ≡ true)
wire-feed tms chunks r h framed fit arrive small =
    feed-frames tms chunks fit small (arrive ∙ wire-closed r h ∙ framed)

Step-Counted :
    {lossy : Bool} {w w' : World}
    → Counted w.ended w.sock
    → Step lossy w w'
    → Counted w'.ended w'.sock
Step-Counted {w} c (sends failed now d _) = send-Counted failed w.sock c now d
Step-Counted {w} c (sends_buffer failed b v small _) = send_buffer-Counted failed w.sock c b
Step-Counted {w} c (wrote failed n h pos fits _) = write_handler-Counted failed n false w.sock h c
Step-Counted {w} c (write_fails failed n h _) = write_handler-Counted failed n true w.sock h c
Step-Counted {w} c closes = post_close-Counted w.sock c

Reach-Counted : {lossy : Bool} {w : World} → Reach lossy w → Counted w.ended w.sock
unfolding connected
Reach-Counted opened = record { outstanding = refl; closed_once = refl }
Reach-Counted (later r s) = Step-Counted (Reach-Counted r) s

-- At any time the writes that were posted are those that have ended and one more exactly if
-- writing is set, so two never overlap; and the socket has been asked to close once if it is
-- closed, else never. Buffers given to Send are valid and shorter than 2 ^ 31 bytes.
pub writes-ended :
    {lossy : Bool} {w : World}
    → Reach lossy w
    → (writes w.sock.requests ≡ w.ended + one_if w.sock.writing)
      × (closings w.sock.requests ≡ one_if (is_close w.sock.flag))
writes-ended r = let c = Reach-Counted r in (c.outstanding, c.closed_once)
