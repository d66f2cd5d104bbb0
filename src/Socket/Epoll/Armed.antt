-- ===== src/Socket/Epoll/Armed.antt =====
-- What the reads and writes of a socket over epoll promise (socket/epoll_access.hpp), as long as
-- the system accepts its calls: each operation that is posted runs its handler once.
use netlib.Common.{
  ℕ, ◌≡◌, Bool, true, false, not, Option, none, some, List, [], ◌∷◌, ◌++◌, if◌then◌else◌,
}
use netlib.Socket.Epoll.{
  Operation, Core, Service, Answers, Error, assign, async_recv_some, async_send_some, do_exec_op,
  clear_op,
}

-- The system accepts `SetNonBlock` and `epoll_ctl`.
abbrev pub smooth : Answers
smooth = record { nonblock_ok = true; ctl_ok = true }

-- A socket as its user sees it: the service it is registered with, what is pending in each
-- direction, and the handlers run so far.
pub record View (H : Type 0) : Type 0 where
  pub service : Option ℕ
  pub reading : Option (H × ℕ)
  pub writing : Option (H × ℕ)
  pub called : List H

-- What the program does with the socket, and what the loop does at an event.
pub data Event (H : Type 0) : Type 0 where
  recv : H → ℕ → Event H
  send : H → ℕ → Event H
  ready : Bool → Bool → Event H

abbrev pub registered : Option ℕ → Bool
registered none = false
registered (some e) = true

module _ {H : Type 0} where
  abbrev pub pending : Option (H × ℕ) → Bool
  pending none = false
  pending (some p) = true

  abbrev pub operation : Option (H × ℕ) → Operation H
  operation none = clear_op
  operation (some (h, len)) = record { handler = some h; len = len; bound = true }

  -- The core that stands for a view: the bits of the state, those of the set of operations and
  -- what the system has registered agree with what is pending.
  abbrev pub core_of : View H → Core H
  core_of v = record {
    fd = true;
    epoll = v.service;
    bind = registered v.service;
    nonblock = true;
    read_flag = pending v.reading;
    write_flag = pending v.writing;
    read_op = pending v.reading;
    write_op = pending v.writing;
    rop = operation v.reading;
    wop = operation v.writing;
    interest = if registered v.service then some (pending v.reading, pending v.writing) else none;
    called = v.called;
  }

  abbrev pub fired : Bool → Option (H × ℕ) → List H
  fired false p = []
  fired true none = []
  fired true (some (h, len)) = h ∷ []

  abbrev pub left : Bool → Option (H × ℕ) → Option (H × ℕ)
  left true p = none
  left false p = p

  -- What each event means, on a socket that is registered with `e`.
  abbrev pub meaning : ℕ → Event H → View H → View H
  meaning e (recv h len) v = record v { service = some e; reading = some (h, len) }
  meaning e (send h len) v = record v { service = some e; writing = some (h, len) }
  meaning e (ready r w) v = record v {
    reading = left r v.reading;
    writing = left w v.writing;
    called = (v.called ++ fired r v.reading) ++ fired w v.writing;
  }

  abbrev pub posted : Service × Core H × Error → Option (Service × Core H)
  posted (s, c, e) = some (s, c)

  abbrev pub served : Service → Option (Core H) → Option (Service × Core H)
  served s none = none
  served s (some c) = some (s, c)

  -- The code's functions; `none` is a crash.
  unfoldable pub step : Event H → Service → Core H → Option (Service × Core H)
  unfolding async_recv_some async_send_some do_exec_op
  step (recv h len) s c = posted (async_recv_some smooth h len s c)
  step (send h len) s c = posted (async_send_some smooth h len s c)
  step (ready r w) s c = served s (do_exec_op r w true s c)

  -- A direction is posted only when nothing is pending in it, and the loop only sees events of
  -- sockets that are registered.
  abbrev pub Sane : Event H → View H → Type 0
  Sane (recv h len) v = v.reading ≡ none
  Sane (send h len) v = v.writing ≡ none
  Sane (ready r w) v = registered v.service ≡ true

  -- The service of a socket: the one it has, or one of those there are.
  pub record Served (v : View H) (s : Service) : Type 0 where
    pub chosen : ℕ
    pub after : Service
    pub assigned : assign (not (registered v.service)) v.service s ≡ (after, some chosen)
    pub impls_kept : after.impls ≡ s.impls
    pub same : registered v.service ≡ true → v.service ≡ some chosen
