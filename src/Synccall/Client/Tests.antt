-- ===== src/Synccall/Client/Tests.antt =====
-- `ScClient` (synccall/synccall_client.hpp): message type 5 with two bytes, answered by one more.
use netlib.Common.{
  ℕ, ◌≡◌, refl, sym, ap, ◌∙◌, true, false, none, some, [], ◌∷◌, arith, length, length-replicate,
  le_bytes, append-nil, replicate,
}
use netlib.Base.Buffer.{new}
use netlib.Base.Buffer.Valid.{new-IsValid}
use netlib.Netio.Header.{sent_header, header_bytes, h2n}
use netlib.Netio.Reader.{new_reader, read_size}
use netlib.Netio.Reader.Frames.{frame}
use netlib.Netio.Reader.Step.{between, clear-Buffered}
use netlib.Netio.Writer.{start}
use netlib.Netio.Sync.{SyncConnector}
use netlib.Netio.Sync.Recv.{Idle, answers}
use netlib.Netio.Sync.Send.{counts}
use netlib.Synccall.Rpc.{twoway_type}
use netlib.Synccall.Rpc.Match.{contents-fill_request, on_receive_data-twoway}
use netlib.Synccall.Rpc.Sample.{
  caller, dealer, said, dealer-Answers, hello, holding, holding-IsValid, contents-holding,
  request_bytes, reply_bytes, request_small,
}
use netlib.Synccall.Client.{ScClient, Try, sync_call}
use netlib.Synccall.Client.Answered.{Smooth, Answered, request_of, sync_call-Answered}
use netlib.Synccall.Client.Settled.{Settled}

abbrev connected : SyncConnector
connected = record {
  flag = start;
  reader = new_reader;
  readbuf = replicate read_size 0;
  readsize = 0;
  sndbuffer = new;
  wire = [];
}

connected-Idle : Idle connected
unfolding new_reader
connected-Idle = record {
  started = refl;
  empty = between (clear-Buffered new-IsValid) refl (omega arith);
  used = refl;
  block = length-replicate {A = ℕ} read_size 0;
}

abbrev client : ScClient
client = record { base = caller; socket = some connected }

small_request : length request_bytes ≡ 14
unfolding le_bytes
small_request = refl

small_reply : length reply_bytes ≡ 15
unfolding le_bytes
small_reply = refl

length-reply_frame : length (frame (1, reply_bytes)) ≡ 23
unfolding le_bytes sent_header header_bytes h2n
length-reply_frame = refl

client_request : request_of 5 hello client ≡ request_bytes
client_request = contents-fill_request twoway_type 5 hello client.base new-IsValid (omega arith)

abbrev smooth_try : Try
smooth_try = record {
  connects = true;
  timestamp = 0;
  sends = counts (20 ∷ 2 ∷ []);
  recvs = answers (frame (1, reply_bytes) ∷ []);
}

smooth_try-Smooth : Smooth smooth_try (request_of 5 hello client) reply_bytes
smooth_try-Smooth = record {
  takes = 20 ∷ 2 ∷ [];
  more_sends = [];
  sends_are = refl;
  taken =
      let l = ap length client_request in
      (
        omega arith,
        omega (arith, l, small_request),
        (omega arith, omega (arith, l, small_request), omega (arith, l, small_request)),
      );
  stamp = 1;
  chunks = frame (1, reply_bytes) ∷ [];
  more_recvs = [];
  recvs_are = refl;
  sized = (omega (arith, length-reply_frame), omega (arith, length-reply_frame), tt);
  arrives = append-nil (frame (1, reply_bytes));
}

sync_call-Answered_example :
    Answered
      (said 5 hello)
      (request_of 5 hello client)
      smooth_try
      connected
      (sync_call smooth_try smooth_try 5 hello client)
sync_call-Answered_example =
    sync_call-Answered dealer said smooth_try smooth_try 5 hello client connected new
      (holding request_bytes) reply_bytes dealer-Answers new-IsValid (omega arith) (omega arith)
      (omega (arith, small_reply)) refl connected-Idle new-IsValid new-IsValid
      (holding-IsValid request_bytes request_small)
      (contents-holding request_bytes request_small ∙ sym client_request)
      (on_receive_data-twoway dealer said new (holding request_bytes) 5 1 hello dealer-Answers
        new-IsValid (holding-IsValid request_bytes request_small) (omega arith) (omega arith)
        (contents-holding request_bytes request_small))
      smooth_try-Smooth

-- The first connection breaks during the send, the second cannot be made.
abbrev broken_try : Try
broken_try = record { connects = false; timestamp = 0; sends = none ∷ []; recvs = [] }
