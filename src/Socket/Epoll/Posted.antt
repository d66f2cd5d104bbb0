-- ===== src/Socket/Epoll/Posted.antt =====
-- A second read on a socket that has one pending (socket/epoll_access.hpp).
use netlib.Common.{ℕ, ◌≡◌, refl, ap, Bool, true, none, some}
use netlib.Socket.Epoll.{
  Core, Service, Answers, posted, async_recv_some, do_exec_op, complete_read, clear_op,
}
use netlib.Socket.Epoll.Armed.{View, core_of}

module _ {H : Type 0} where
  -- Posting a read on a socket that has one pending returns M_ERR_POSTED_READ and runs no handler,
  -- whatever the system answers; the read flag stays set, but the next event that makes the socket
  -- readable crashes, since the pending operation was cleared.
  async_recv_some-posted :
      (a : Answers) (h : H) (len : ℕ) (s : Service) (v : View H) (g : H) (n : ℕ) (w ctl_ok : Bool)
      → v.reading ≡ some (g, n)
      → (c : Core H) × (async_recv_some a h len s (core_of v) ≡ (s, c, posted))
        × (c.read_flag ≡ true)
        × (c.called ≡ v.called)
        × (do_exec_op true w ctl_ok s c ≡ none)
  unfolding async_recv_some do_exec_op complete_read
  async_recv_some-posted a h len s v g n w ctl_ok e = (
    record (core_of (record v { reading = some (g, n) })) { rop = clear_op },
    ap (λ q. async_recv_some a h len s (core_of (record v { reading = q }))) e,
    refl,
    refl,
    refl,
  )
