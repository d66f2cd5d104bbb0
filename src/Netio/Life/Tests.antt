-- ===== src/Netio/Life/Tests.antt =====
-- A `TcpSocket` (netio/tsocket_impl.hpp) that reads one message, and is closed while the program is
-- being told it.
use netlib.Common.{ℕ, ◌≡◌, refl, false, none, some, List, [], ◌∷◌, le_value, bswap}
use netlib.Base.Buffer.{new, malloc, write, grow, read, clear, length_of}
use netlib.Netio.Header.{header_value, n2h}
use netlib.Netio.Reader.{new_reader, read_header, load_header, cut_header, cut_body, cut_msg_pack}
use netlib.Netio.Writer.{connected, post_close}
use netlib.Netio.Life.{
  connects, receives, disconnects, TcpSocket, try_recv_data, init, read_handler, carry_on,
  close_handler,
}

abbrev chunk : List ℕ
chunk = 0 ∷ 0 ∷ 0 ∷ 7 ∷ 0 ∷ 0 ∷ 0 ∷ 3 ∷ 1 ∷ 2 ∷ 3 ∷ []

unfoldable is_reading : TcpSocket
is_reading = carry_on false init

unfoldable has_read : TcpSocket
has_read = elim (read_handler chunk false is_reading) [ none ↦ init | some s ↦ s ]

unfoldable has_closed : TcpSocket
has_closed = record has_read { base = post_close has_read.base }

-- The message of the chunk comes after OnDisconnected.
told_all :
    (carry_on false (close_handler has_closed)).callbacks
    ≡ connects ∷ disconnects ∷ receives (1 ∷ 2 ∷ 3 ∷ []) ∷ []
unfolding close_handler has_closed post_close has_read is_reading carry_on read_handler init
    try_recv_data connected cut_msg_pack cut_header cut_body load_header read_header new_reader new
    malloc write grow read clear length_of n2h header_value bswap le_value
told_all = refl
