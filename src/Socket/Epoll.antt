-- ===== src/Socket/Epoll.antt =====
-- socket/epoll_access.hpp: reads and writes of one stream socket over epoll. A function of the
-- code runs under the socket's mutex and is one step; what the system answers is an argument.
pub mod Armed
pub mod Once
pub mod Posted
mod Tests
use netlib.Common.{
  ℕ, ◌+◌, ◌%◌, Bool, true, false, not, Option, none, some, List, [], ◌∷◌, ◌++◌, ◌==◌, ◌&&◌, ◌||◌,
  if◌then◌else◌, length, get_elem?, get_or, set, add32,
}

-- `ReadOperation` and `WriteOperation`: `bound` says that `_impl` is the socket and not empty.
pub record Operation (H : Type 0) : Type 0 where
  pub handler : Option H
  pub len : ℕ
  pub bound : Bool

-- The core of a `SocketImpl`: descriptor, bits of `_state`, bits of `_op._type`. `interest` is what
-- the system has registered, for reading and for writing; `called` are the handlers run so far.
pub record Core (H : Type 0) : Type 0 where
  pub fd : Bool
  pub epoll : Option ℕ
  pub bind : Bool
  pub nonblock : Bool
  pub read_flag : Bool
  pub write_flag : Bool
  pub read_op : Bool
  pub write_op : Bool
  pub rop : Operation H
  pub wop : Operation H
  pub interest : Option (Bool × Bool)
  pub called : List H

-- `_implvector`, by the descriptors of the services and their `_fdcnt`, and `_implidx`.
pub record Service : Type 0 where
  pub implidx : ℕ
  pub impls : List ℕ
  pub fdcnts : List ℕ

pub data Error : Type 0 where
  no_error bad_descriptor posted not_service system_error : Error

-- What the system answers to `SetNonBlock` and to `epoll_ctl`.
pub record Answers : Type 0 where
  pub nonblock_ok : Bool
  pub ctl_ok : Bool

abbrev pub is_none : Option ℕ → Bool
is_none none = true
is_none (some e) = false

abbrev pub failed : Error → Bool
failed no_error = false
failed bad_descriptor = true
failed posted = true
failed not_service = true
failed system_error = true

-- The choice of a service for a socket that has none, at `M_EPOLL_CTL_ADD`.
abbrev pub choose : ℕ → ℕ → Service → Service
choose idx place s = record s {
  implidx = idx;
  fdcnts = set s.fdcnts place (add32 (get_or s.fdcnts place 0) 1);
}

abbrev pub assign_from : List ℕ → Service → Service × Option ℕ
assign_from [] s = (s, none)
assign_from (i ∷ is) s = (
  choose (add32 s.implidx 1) (add32 s.implidx 1 % length (i ∷ is)) s,
  get_elem? (i ∷ is) (add32 s.implidx 1 % length (i ∷ is)),
)

abbrev pub assign : Bool → Option ℕ → Service → Service × Option ℕ
assign add (some e) s = (s, some e)
assign false none s = (s, none)
assign true none s = assign_from s.impls s

module _ {H : Type 0} where
  -- `Clear` of an operation.
  abbrev pub clear_op : Operation H
  clear_op = record { handler = none; len = 0; bound = false }

  -- `g_epoll_ctl`, and the error that `CtlEpoll` makes of it.
  abbrev pub ctl_at : Bool → Bool × Bool → Service × Option ℕ → Core H → Service × Core H × Error
  ctl_at ok events (s, none) c = (s, record c { epoll = none }, not_service)
  ctl_at true events (s, some e) c =
      (s, record c { epoll = some e; interest = some events }, no_error)
  ctl_at false events (s, some e) c = (s, record c { epoll = some e }, system_error)

  unfoldable pub ctl_epoll : Bool → Bool → Bool × Bool → Service → Core H → Service × Core H × Error
  ctl_epoll ok add events s c = ctl_at ok events (assign add c.epoll s) c

  -- The end of `AsyncRecvSome` and `AsyncSendSome`.
  abbrev pub read_posted : Service × Core H × Error → Service × Core H × Error
  read_posted (s, c, e) =
      (s, (if failed e then record c { read_flag = false; bind = false; rop = clear_op } else c), e)

  abbrev pub write_posted : Service × Core H × Error → Service × Core H × Error
  write_posted (s, c, e) = (
    s,
    (if failed e then record c { write_flag = false; bind = false; wop = clear_op } else c),
    e,
  )

  unfoldable pub async_recv_some : Answers → H → ℕ → Service → Core H → Service × Core H × Error
  unfolding ctl_epoll
  async_recv_some a h len s c =
      let refused : Core H = record c { rop = clear_op } in
      if not c.fd
      then (s, refused, bad_descriptor)
      else if c.read_flag
      then (s, refused, posted)
      else if not c.nonblock && not a.nonblock_ok
      then (s, refused, system_error)
      else read_posted (
          ctl_epoll a.ctl_ok (not c.bind) (true, c.write_flag) s
            (record c {
              nonblock = true;
              read_flag = true;
              read_op = true;
              write_op = c.write_flag;
              bind = true;
              rop = record { handler = some h; len = len; bound = true };
            }))

  unfoldable pub async_send_some : Answers → H → ℕ → Service → Core H → Service × Core H × Error
  unfolding ctl_epoll
  async_send_some a h len s c =
      let refused : Core H = record c { wop = clear_op } in
      if not c.fd
      then (s, refused, bad_descriptor)
      else if c.write_flag
      then (s, refused, posted)
      else if not c.nonblock && not a.nonblock_ok
      then (s, refused, system_error)
      else write_posted (
          ctl_epoll a.ctl_ok (not c.bind) (c.read_flag, true) s
            (record c {
              nonblock = true;
              write_flag = true;
              write_op = true;
              read_op = c.read_flag;
              bind = true;
              wop = record { handler = some h; len = len; bound = true };
            }))

  -- The call of a handler, if the socket is to be notified; `none` is the call of an empty one.
  abbrev pub notify : Bool → Option H → Core H → Option (Core H)
  notify false h c = some c
  notify true none c = none
  notify true (some h) c = some (record c { called = c.called ++ h ∷ [] })

  -- `ReadOperation::Complete`; `none` is the use of an empty `_impl` or handler.
  unfoldable pub complete_read : Bool → Service → Core H → Option (Core H)
  unfolding ctl_epoll
  complete_read ctl_ok s c =
      if not c.rop.bound
      then none
      else if c.fd
      then notify true c.rop.handler
          (record (ctl_epoll ctl_ok false (false, c.write_op) s
            (record c { read_flag = false; read_op = false })).1 { rop = clear_op })
      else some (record c { rop = clear_op })

  -- `WriteOperation::Complete`
  unfoldable pub complete_write : Bool → Service → Core H → Option (Core H)
  unfolding ctl_epoll
  complete_write ctl_ok s c =
      if not c.wop.bound
      then none
      else if c.fd
      then notify true c.wop.handler
          (record (ctl_epoll ctl_ok false (c.read_op, false) s
            (record c { write_op = false; write_flag = false })).1 { wop = clear_op })
      else some (record c { write_op = false; wop = clear_op })

  -- `_DoExecOp` for a socket that neither accepts nor connects: the event says whether it is
  -- readable and writable, an error or a hang-up counting as both.
  abbrev pub then_write : Bool → Bool → Service → Option (Core H) → Option (Core H)
  then_write writable ctl_ok s none = none
  then_write writable ctl_ok s (some c) =
      if c.write_op && writable then complete_write ctl_ok s c else some c

  unfoldable pub do_exec_op : Bool → Bool → Bool → Service → Core H → Option (Core H)
  unfolding complete_read complete_write
  do_exec_op readable writable ctl_ok s c =
      then_write writable ctl_ok s
        (if c.read_op && readable then complete_read ctl_ok s c else some c)

  -- A fresh socket with a descriptor.
  abbrev pub opened : Core H
  opened = record {
    fd = true;
    epoll = none;
    bind = false;
    nonblock = true;
    read_flag = false;
    write_flag = false;
    read_op = false;
    write_op = false;
    rop = clear_op;
    wop = clear_op;
    interest = none;
    called = [];
  }
