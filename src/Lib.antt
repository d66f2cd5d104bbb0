-- ===== src/Lib.antt =====
-- netlib2: a C++ network library (buffers, containers, framed tcp sockets, http messages, a
-- coroutine scheduler, synchronous calls), and what is proved of its own logic.
--
-- The parts, and the files that model them:
--   Base/Buffer        base/buffer.hpp, `Buffer`: a growing block with a write position and a read
--                      offset, in 32-bit arithmetic. `Write`, `Read`, `CutData`, `Swap` and the
--                      stream operators.
--   Base/CircularQueue base/circular_queue.hpp, `circular_queue`: a ring of slots, one of them free.
--   Base/Svector       base/svector.hpp, `svector`: an array that grows, with the block behind it.
--   Base/Slist         base/slist.hpp, `slist`: a linked list on an explicit heap of nodes, where an
--                      access to a node that is not there is a fault.
--   Netio/Header       netio/netio.hpp and netio/tsocket_impl.hpp, `MessageHeader`.
--   Netio/Reader       `TcpStreamSocket::_CutMsgPack` (netio/tsocket_impl.hpp): cuts a stream into
--                      messages. `Reader/Spec` is the cut of a whole stream, which `Reader/Refine`
--                      and `Reader/Stream` show the chunked code to compute.
--   Netio/Writer       `TcpBaseSocket` (netio/tsocket_impl.hpp): `Send`, `_TrySendData`,
--                      `_WriteHandler`, `_Close`. `Writer/History` is its life as a step relation.
--   Netio/Life         `TcpSocket` (netio/netio.hpp, netio/tsocket_impl.hpp) from `Init` to
--                      `OnDisconnected`: `_ReadHandler`, `_TryRecvData` and `_CloseHandler` over
--                      Netio/Reader and Netio/Writer, and the callbacks that the program gets.
--   Netio/Http         netio/httpmsg.hpp: `Http/Base`, `Http/Scan` and `Http/ContentLength` are
--                      `HttpBaseMsg`, `Http/Request` is `HttpSvrRecvMsg`, `Http/Response` is
--                      `HttpCliRecvMsg`, `Http/Reply` is `HttpSvrSendMsg`; `Http/Socket` is
--                      `HttpBaseSocket::_CutMsgPack` (netio/hsocket_impl.hpp).
--   Netio/HeartBeat    netio/heartbeat.hpp, `HeartBeatMng`: the callbacks, and a round of `_Run`.
--   Synccall/Rpc        synccall/synccall_client.hpp and synccall/synccall_svr.hpp: a request, the
--                      answer of `ScServer::OnReceiveData`, and `_CheckReply`. What the user's
--                      `IServerHandler` does is a parameter; a theorem says what it needs of it.
--   Synccall/Client    synccall/synccall_client.hpp, `ScClient`: the call that waits for its reply
--                      and is tried again once on a new connection. It runs over Netio/Sync.
--   Synccall/CoClient  synccall/synccall_coclient.hpp, `CoScClient`, and the callbacks of `ScServer`
--                      (synccall/synccall_svr.hpp) on its connectors: a call that yields until its
--                      reply or the end of its connection has it resumed. It runs over Netio/Writer
--                      and Netio/HeartBeat, and records its calls of `addResume`.
--   Netio/Sync         netio/tconnector_impl.hpp, `SyncConnector`: `Send`, `Recv`, `_CutMsgPack`. What
--                      the system answers to the calls of a loop is a list.
--   Socket/Epoll       socket/epoll_access.hpp: `AsyncRecvSome`, `AsyncSendSome` and the `Complete`
--                      of the pending operations of one socket.
--   Coroutine/Schedule coroutine/coroutine.hpp and coroutine/co_linux_impl.hpp, `basecoroutine`: the
--                      table of coroutines with its free ids (an `svector`), their statuses, and the
--                      stack that they share or own. The switch of contexts is the system's: a
--                      resume is a step before it and a step after it.
--   Coroutine/Wakeup   coroutine/coroutine.hpp, `CoroutineTask`: `addResume` with a thread and
--                      `doThrResume`, on the lists of all threads in one heap. What is added while a
--                      coroutine runs, by it or by another thread, is a parameter.
-- `Common` holds lists, tests on numbers and 32-bit words.
--
-- Numbers are naturals; a 32-bit value keeps its wrap-around (`add32`, `sub32`), and a byte is a
-- number that no theorem needs to be below 256. A handler that runs under the lock of its object is
-- one step, and one that holds none is a step from callback to callback (Netio/Life); a call below the object (a system call, a callback of the program) is a request
-- that the state records, or a Boolean argument that says whether it fails.
--
-- The loops of `_CutMsgPack` and `_ParseHead` run on fuel, one more than the length of the chunk;
-- that it never runs out is part of the theorems on them. `snprintf` of a length runs on ten
-- digits, as many as an `int` has. The loops of `slist` that free, and that of `doThrResume`, run
-- on fuel above the length of the list, which is enough on a well-formed one. The loops of
-- `SyncConnector` go down the list of the system's answers, and a list that ends early is a result
-- of its own (the call still waits). A memory access out of bounds, or to a freed node, is a result
-- of its own. A block that is allocated and not yet written holds zeros.
--
-- Not modelled: the tasks of `CoroutineTask`, their wrappers and the queue of one thread; the
-- accepting, connecting and closing side of the epoll layer and its main loop; the timers; logging,
-- threads, mutexes and atomics, the wrappers of system calls and socket options, the Windows
-- completion ports and fibers, and the test programs, which are glue to the system.
pub mod Common
pub mod Base
pub mod Coroutine
pub mod Netio
pub mod Socket
pub mod Synccall
