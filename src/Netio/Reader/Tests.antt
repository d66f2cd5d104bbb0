-- ===== src/Netio/Reader/Tests.antt =====
-- The reader at concrete streams.
use netlib.Common.{
  ℕ, ◌≡◌, refl, true, false, none, some, List, [], ◌∷◌, arith, le_bytes, le_value, bswap,
}
use netlib.Base.Buffer.{new, malloc, write, grow, read, clear, length_of}
use netlib.Netio.Header.{sent_header, header_bytes, header_value, h2n, n2h, announced}
use netlib.Netio.Reader.{
  Cut, new_reader, read_header, load_header, cut_header, cut_body, cut_msg_pack, feed,
}
use netlib.Netio.Reader.Spec.{deframe}
use netlib.Netio.Reader.Stream.{feed-deframe, feed-frames}

abbrev sent : List (ℕ × List ℕ)
sent = (7, 1 ∷ 2 ∷ 3 ∷ []) ∷ (8, []) ∷ (9, 4 ∷ []) ∷ []

-- The same 28 bytes, cut inside the first header and inside the last body.
abbrev arriving : List (List ℕ)
arriving =
    (0 ∷ 0 ∷ 0 ∷ 7 ∷ 0 ∷ [])
    ∷ (0 ∷ 0 ∷ 3 ∷ 1 ∷ 2 ∷ 3 ∷ 0 ∷ 0 ∷ 0 ∷ 8 ∷ 0 ∷ 0 ∷ 0 ∷ 0 ∷ 0 ∷ [])
    ∷ (0 ∷ 0 ∷ 9 ∷ 0 ∷ 0 ∷ 0 ∷ 1 ∷ [])
    ∷ (4 ∷ [])
    ∷ []

feed-frames_example :
    (c : Cut) × (feed new_reader arriving ≡ some c)
    × (c.msgs ≡ (1 ∷ 2 ∷ 3 ∷ []) ∷ [] ∷ (4 ∷ []) ∷ [])
    × (c.ok ≡ true)
unfolding sent_header header_bytes h2n bswap le_bytes
feed-frames_example = feed-frames sent arriving (omega arith) (omega arith) refl

-- A header that announces 2 ^ 24 bytes.
abbrev too_long : List (List ℕ)
too_long = (0 ∷ 0 ∷ 0 ∷ 1 ∷ 1 ∷ 0 ∷ 0 ∷ 0 ∷ 5 ∷ []) ∷ []

feed-deframe_example :
    (c : Cut) × (feed new_reader too_long ≡ some c) × (c.msgs ≡ []) × (c.ok ≡ false)
unfolding deframe announced n2h header_value bswap le_value
feed-deframe_example = feed-deframe too_long 10 (omega arith) (omega arith)

-- The code itself, run on the first chunks.
run_arriving :
    elim (feed new_reader arriving) [ none ↦ [] | some c ↦ c.msgs ]
    ≡ (1 ∷ 2 ∷ 3 ∷ []) ∷ [] ∷ (4 ∷ []) ∷ []
unfolding feed cut_msg_pack cut_header cut_body load_header read_header new_reader new malloc write
    grow read clear length_of n2h header_value bswap le_value
run_arriving = refl
