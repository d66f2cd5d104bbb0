-- ===== src/Synccall/CoClient/Tests.antt =====
-- `CoScClient` (synccall/synccall_coclient.hpp) at work: the coroutine 4 of the thread 9.
use netlib.Common.{
  ℕ, ◌+◌, ◌≡◌, refl, sym, ◌∙◌, true, false, none, some, List, [], ◌∷◌, arith, replicate, length,
  length-replicate,
}
use netlib.Base.Buffer.{new}
use netlib.Base.Buffer.Valid.{new-IsValid}
use netlib.Netio.Reader.{pack_size}
use netlib.Netio.Writer.{close, close_socket, connected}
use netlib.Netio.HeartBeat.{start}
use netlib.Synccall.Rpc.{twoway_type}
use netlib.Synccall.Rpc.Match.{contents-fill_request}
use netlib.Synccall.Rpc.Sample.{
  caller, dealer, said, dealer-Answers, hello, holding, holding-IsValid, contents-holding,
  request_bytes, request_small, reply_bytes, reply_small, reply_sent,
}
use netlib.Synccall.CoClient.{TcpConnector, CoScClient, Attempt, waiting, sync_co, resumed_co}
use netlib.Synccall.CoClient.Wakeful.{
  Move, connects, calls, closes, receives, disconnects, resumes, moves, IsWakeful,
}
use netlib.Synccall.CoClient.Woken.{moves-IsWakeful}
use netlib.Synccall.CoClient.Replied.{CoAnswered, sync_co-CoAnswered}
use netlib.Synccall.CoClient.Ended.{Ended, sync_co-Ended}
use netlib.Synccall.CoClient.Stranded.{sync_co-unsent, sync_co-lost}

-- A connector that is up.
abbrev linked : TcpConnector
linked = record {
  fd = 6;
  tcp = connected;
  info = record { valid = true; thr_id = 0; co_id = none; buffer = new };
}

abbrev linked_client : CoScClient
linked_client = record {
  base = caller;
  socket = some 0;
  made = 1;
  connectors = λ j. linked;
  heartmng = start 2;
  resumes = [];
}

abbrev fresh_client : CoScClient
fresh_client = record linked_client { socket = none; made = 0 }

abbrev smooth : Attempt
smooth = record { connects = true; lost = false; fd = 6; now = 50; failed = false }

abbrev losing : Attempt
losing = record smooth { lost = true }

-- A call that is answered, and one whose connection ends.
abbrev day : List Move
day =
    connects smooth
    ∷ calls smooth smooth 5 hello
    ∷ receives 0 (holding reply_bytes)
    ∷ disconnects 0
    ∷ resumes
    ∷ calls smooth smooth 5 hello
    ∷ disconnects 1
    ∷ resumes
    ∷ closes
    ∷ []

moves-IsWakeful_example :
    IsWakeful 9 4 (moves 9 4 day (record { shared = fresh_client; pending = none }))
moves-IsWakeful_example =
    moves-IsWakeful 9 4 day (record { shared = fresh_client; pending = none }) (λ j. refl, tt)

sync_co-CoAnswered_example :
    CoAnswered (said 5 hello) 0 9 4 5 hello smooth smooth linked_client (holding reply_bytes)
unfolding connected
sync_co-CoAnswered_example =
    sync_co-CoAnswered dealer said smooth smooth 9 4 5 hello linked_client 0 new
      (holding request_bytes) (holding reply_bytes) dealer-Answers new-IsValid (omega arith)
      (omega arith) new-IsValid (holding-IsValid request_bytes request_small)
      (contents-holding request_bytes request_small
        ∙ sym (contents-fill_request twoway_type 5 hello caller new-IsValid (omega arith)))
      (holding-IsValid reply_bytes reply_small) reply_sent refl refl refl refl

sync_co-Ended_example :
    Ended 2 (sync_co smooth smooth 9 4 5 hello fresh_client)
    × ((k : ℕ) (ts : List Attempt) (c' : CoScClient)
        → c'.socket ≡ some k
        → Ended (length ts) (resumed_co k ts 9 4 5 hello c'))
sync_co-Ended_example = sync_co-Ended 9 4 5 hello smooth smooth fresh_client

-- One byte more than a package may have.
unfoldable long_message : List ℕ
long_message = replicate (pack_size + 1) 7

length-long_message : length long_message ≡ pack_size + 1
unfolding long_message
length-long_message = length-replicate {A = ℕ} (pack_size + 1) 7

sync_co-unsent_example :
    (c' : CoScClient) × (sync_co smooth smooth 9 4 5 long_message linked_client
      ≡ waiting 0 (smooth ∷ []) c')
    × ((c'.connectors 0).tcp ≡ (linked_client.connectors 0).tcp)
    × (c'.resumes ≡ linked_client.resumes)
unfolding connected
sync_co-unsent_example =
    sync_co-unsent smooth smooth 9 4 5 long_message linked_client 0 refl refl refl new-IsValid
      (omega (arith, length-long_message)) (omega (arith, length-long_message))

sync_co-lost_example :
    (c' : CoScClient) × (sync_co losing smooth 9 4 5 hello fresh_client
      ≡ waiting 0 (smooth ∷ []) c')
    × ((c'.connectors 0).tcp.flag ≡ close)
    × ((c'.connectors 0).tcp.requests ≡ close_socket ∷ [])
    × (c'.resumes ≡ fresh_client.resumes)
sync_co-lost_example = sync_co-lost losing smooth 9 4 5 hello fresh_client refl refl refl
