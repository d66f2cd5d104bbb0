-- ===== src/Netio/Header.antt =====
-- `MessageHeader` (netio/netio.hpp): the 8 bytes before each message, packed, in network order.
use netlib.Common.{
  ℕ, ◌^◌, ◌<◌, ◌≡◌, refl, ap, ◌∙◌, List, ◌++◌, length, take, drop, le_bytes, le_value, bswap,
  le_value-le_bytes, bswap-bswap, bswap-lt, take-append, take-all, ◌≤◌, arith,
}

-- `timestamp` is the bit pattern of the `int`.
pub record Header : Type 0 where
  pub timestamp : ℕ
  pub size : ℕ

-- sizeof(MessageHeader)
abbrev pub hdrlen : ℕ
hdrlen = 8

unfoldable pub n2h : Header → Header
n2h h = record { timestamp = bswap h.timestamp; size = bswap h.size }

unfoldable pub h2n : Header → Header
h2n h = record { timestamp = bswap h.timestamp; size = bswap h.size }

-- The packed struct in memory, and the struct that eight bytes make.
unfoldable pub header_bytes : Header → List ℕ
header_bytes h = le_bytes h.timestamp ++ le_bytes h.size

unfoldable pub header_value : List ℕ → Header
header_value bs = record { timestamp = le_value (take 4 bs); size = le_value (take 4 (drop 4 bs)) }

-- The message size that a stream announces at its front.
unfoldable pub announced : List ℕ → ℕ
announced xs = (n2h (header_value (take hdrlen xs))).size

-- What `Send` puts before `size` bytes of a message.
unfoldable pub sent_header : ℕ → ℕ → List ℕ
sent_header timestamp size = header_bytes (h2n (record { timestamp = timestamp; size = size }))

pub length-sent_header : (t n : ℕ) → length (sent_header t n) ≡ hdrlen
unfolding sent_header header_bytes h2n le_bytes
length-sent_header t n = refl

-- A header made by `h2n` on one side is read back by `n2h` on the other.
pub announced-sent_header :
    (t n : ℕ) (rest : List ℕ) → n < 2 ^ 32 → announced (sent_header t n ++ rest) ≡ n
unfolding announced sent_header header_bytes header_value h2n n2h le_bytes
announced-sent_header t n rest h =
    ap bswap (unfold le_bytes in le_value-le_bytes (bswap n) (bswap-lt n)) ∙ bswap-bswap n h

pub announced-append : (xs ys : List ℕ) → hdrlen ≤ length xs → announced (xs ++ ys) ≡ announced xs
unfolding announced n2h
announced-append xs ys h = rw (take-append hdrlen xs ys h)

pub announced-front :
    (hdr rest : List ℕ)
    → length hdr ≡ hdrlen
    → announced (hdr ++ rest) ≡ (n2h (header_value hdr)).size
unfolding announced n2h
announced-front hdr rest l =
    rw (take-append hdrlen hdr rest (omega arith), take-all hdrlen hdr (omega arith))
