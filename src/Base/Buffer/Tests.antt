-- ===== src/Base/Buffer/Tests.antt =====
-- base/buffer.hpp at concrete buffers.
use netlib.Common.{◌≡◌, refl, some, [], ◌∷◌, arith, le_bytes}
use netlib.Base.Buffer.{Buffer, new, write}
use netlib.Base.Buffer.Valid.{IsValid, Wrote, write-Wrote}
use netlib.Base.Buffer.Pack.{read_strings, write_strings, read_strings-write_strings}

-- Four bytes written, the first of them read.
abbrev small : Buffer
small = record { size = 6; pos = 4; offset = 1; mem = 7 ∷ 8 ∷ 9 ∷ 10 ∷ 0 ∷ 0 ∷ [] }

small-IsValid : IsValid small
small-IsValid = record {
  unread = omega arith;
  fits = omega arith;
  block = refl;
  word = omega arith;
}

-- Three more bytes do not fit the block of six.
write-Wrote_example : Wrote small (1 ∷ 2 ∷ 3 ∷ []) (write small (1 ∷ 2 ∷ 3 ∷ []))
write-Wrote_example = write-Wrote (1 ∷ 2 ∷ 3 ∷ []) small-IsValid (omega arith)

read_strings-write_strings_example :
    read_strings 2 (write_strings new ((104 ∷ 105 ∷ []) ∷ [] ∷ []))
    ≡ some ((104 ∷ 105 ∷ []) ∷ [] ∷ [])
unfolding le_bytes
read_strings-write_strings_example =
    read_strings-write_strings ((104 ∷ 105 ∷ []) ∷ [] ∷ []) (omega arith) (omega arith)
