-- ===== src/Netio/Sync/Tests.antt =====
-- `SyncConnector` (netio/tconnector_impl.hpp) at work.
use netlib.Common.{
  ℕ, ◌≡◌, refl, some, List, [], ◌∷◌, ◌++◌, arith, replicate, take, drop, length-replicate, le_bytes,
}
use netlib.Base.Buffer.{new, contents}
use netlib.Base.Buffer.Valid.{new-IsValid}
use netlib.Netio.Header.{sent_header, header_bytes, h2n}
use netlib.Netio.Reader.{new_reader, read_size}
use netlib.Netio.Reader.Frames.{frame}
use netlib.Netio.Reader.Step.{between, clear-Buffered}
use netlib.Netio.Writer.{start}
use netlib.Netio.Sync.{SyncConnector, recv, send, ok}
use netlib.Netio.Sync.Recv.{Idle, Replied, recv-Replied, answers}
use netlib.Netio.Sync.Send.{Delivered, send-Delivered, counts}
use netlib.Netio.Sync.Again.{recv-repeats}

abbrev connected : SyncConnector
connected = record {
  flag = start;
  reader = new_reader;
  readbuf = replicate read_size 0;
  readsize = 0;
  sndbuffer = new;
  wire = [];
}

connected-Idle : Idle connected
unfolding new_reader
connected-Idle = record {
  started = refl;
  empty = between (clear-Buffered new-IsValid) refl (omega arith);
  used = refl;
  block = length-replicate {A = ℕ} read_size 0;
}

-- The message 7, 8 in two chunks, the first of which is three bytes of the header.
abbrev message : List ℕ
message = 7 ∷ 8 ∷ []

abbrev chunks : List (List ℕ)
chunks = take 3 (frame (1, message)) ∷ drop 3 (frame (1, message)) ∷ []

recv-Replied_example : Replied message [] (recv (answers chunks ++ []) connected)
unfolding sent_header header_bytes h2n le_bytes
recv-Replied_example =
    recv-Replied 1 message (omega arith) chunks [] connected connected-Idle
      (omega arith, omega arith, (omega arith, omega arith, tt)) refl

send-Delivered_example :
    Delivered (frame (1, message)) connected (send 1 message (counts (4 ∷ 6 ∷ []) ++ []) connected)
send-Delivered_example =
    send-Delivered 1 message (4 ∷ 6 ∷ []) [] connected refl new-IsValid (omega arith) (omega arith)
      (omega arith)

recv-repeats_example :
    (c' : SyncConnector) × (recv (some (frame (1, message) ++ frame (2, 5 ∷ 6 ∷ [])) ∷ []) connected
      ≡ ok c')
    × (contents c'.reader.msgbuffer ≡ message)
    × Replied message c'.wire (recv [] c')
recv-repeats_example =
    recv-repeats 1 2 message (5 ∷ 6 ∷ []) [] [] connected connected-Idle refl (omega arith)
