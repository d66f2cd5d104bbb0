-- ===== src/Netio/Writer/Tests.antt =====
-- A `TcpBaseSocket` at a concrete history: two messages are sent, the program closes, and the
-- system takes the bytes in three writes.
use netlib.Common.{
  ℕ, suc, ◌+◌, ◌≡◌, refl, true, false, some, List, [], ◌∷◌, ◌++◌, arith, le_bytes, bswap,
}
use netlib.Base.Buffer.{new, malloc, write, grow, read, clear, cut_data, length_of, swap}
use netlib.Netio.Header.{sent_header, header_bytes, h2n}
use netlib.Netio.Reader.{Cut, new_reader, feed}
use netlib.Netio.Writer.{
  close, is_close, connected, post_close, refill, post_send, try_send_data, enqueue, send, settle,
  write_handler,
}
use netlib.Netio.Writer.Valid.{pending}
use netlib.Netio.Writer.Requests.{writes, closings, one_if}
use netlib.Netio.Writer.History.{
  World, Reach, fresh, sent_to, sends, wrote, closes, opened, later, wire-pending, wire-closed,
  wire-feed, writes-ended,
}

abbrev first : List ℕ
first = 1 ∷ 2 ∷ 3 ∷ []

abbrev second : List ℕ
second = 4 ∷ []

abbrev after_first : World
after_first = sent_to fresh (send false 7 first fresh.sock) (sent_header 7 3 ++ first)

abbrev after_second : World
after_second =
    sent_to after_first (send false 9 second after_first.sock) (sent_header 9 1 ++ second)

abbrev after_close : World
after_close = record after_second { sock = post_close after_second.sock }

-- The first write stops inside the first message, the second ends it, the third is the second message.
abbrev wrote_some : ℕ → List ℕ → World → World
wrote_some n bs w = record w {
  sock = write_handler false n false w.sock;
  wire = w.wire ++ bs;
  ended = suc w.ended;
}

abbrev after_part : World
after_part = wrote_some 5 (0 ∷ 0 ∷ 0 ∷ 7 ∷ 0 ∷ []) after_close

abbrev after_rest : World
after_rest = wrote_some 6 (0 ∷ 0 ∷ 3 ∷ 1 ∷ 2 ∷ 3 ∷ []) after_part

abbrev after_all : World
after_all = wrote_some 9 (0 ∷ 0 ∷ 0 ∷ 9 ∷ 0 ∷ 0 ∷ 0 ∷ 1 ∷ 4 ∷ []) after_rest

second_Reach : Reach false after_second
second_Reach =
    later (later opened (sends false 7 first (λ e. refl))) (sends false 9 second (λ e. refl))

all_Reach : Reach false after_all
unfolding sent_header header_bytes h2n bswap le_bytes connected send enqueue try_send_data refill
    swap post_send post_close write_handler settle new malloc write grow read clear cut_data
    length_of
all_Reach =
    later
      (later
        (later (later second_Reach closes)
          (wrote false 5 refl (λ e. omega arith) (omega arith) (λ e. refl)))
        (wrote false 6 refl (λ e. omega arith) (omega arith) (λ e. refl)))
      (wrote false 9 refl (λ e. omega arith) (omega arith) (λ e. refl))

all_closed : after_all.sock.flag ≡ close
unfolding sent_header header_bytes h2n bswap le_bytes connected send enqueue try_send_data refill
    swap post_send post_close write_handler settle new malloc write grow read clear cut_data
    length_of
all_closed = refl

wire-pending_example : after_second.wire ++ pending after_second.sock ≡ after_second.accepted
wire-pending_example = wire-pending second_Reach

wire-closed_example : after_all.wire ≡ after_all.accepted
wire-closed_example = wire-closed all_Reach all_closed

writes-ended_example :
    (writes after_second.sock.requests ≡ 0 + one_if after_second.sock.writing)
    × (closings after_second.sock.requests ≡ one_if (is_close after_second.sock.flag))
writes-ended_example = writes-ended second_Reach

wire-feed_example :
    (c : Cut) × (feed new_reader (after_all.wire ∷ []) ≡ some c)
    × (c.msgs ≡ first ∷ second ∷ [])
    × (c.ok ≡ true)
unfolding sent_header header_bytes h2n bswap le_bytes connected send enqueue try_send_data refill
    swap post_send post_close write_handler settle new malloc write grow read clear cut_data
    length_of
wire-feed_example =
    wire-feed ((7, first) ∷ (9, second) ∷ []) (after_all.wire ∷ []) all_Reach all_closed refl
      (omega arith) refl (omega arith)
