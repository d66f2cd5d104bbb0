-- ===== src/Base/Buffer.antt =====
-- base/buffer.hpp: `Buffer`, a growing block of bytes with a write position and a read offset.
-- `Buffer/Valid` and `Buffer/Strings` are about single operations, `Buffer/Pack` about writing
-- and reading in turn.
pub mod Valid
pub mod Strings
pub mod Pack
mod Tests
use netlib.Common.{
  ℕ, ◌+◌, ◌*◌, ◌/◌, ◌%◌, Option, none, some, List, [], ◌∷◌, ltb, if◌then◌else◌, ◌==◌, length, take,
  drop, replicate, memcpy, u32_mod, add32, sub32, le_bytes, le_value,
}

-- `Buffer::_data_`. `mem` is the block behind the pointer `_data`, one number for each byte.
pub record Buffer : Type 0 where
  pub size : ℕ
  pub pos : ℕ
  pub offset : ℕ
  pub mem : List ℕ

-- M_BUFFER_DEFAILT_SIZE
abbrev pub default_size : ℕ
default_size = 1024

-- A fresh block. C leaves its bytes indeterminate; no theorem reads one that was not written.
unfoldable pub malloc : ℕ → List ℕ
malloc n = replicate n 0

unfoldable pub new : Buffer
unfolding malloc
new = record { size = default_size; pos = 0; offset = 0; mem = malloc default_size }

-- `Buffer(hdrlen)`
unfoldable pub with_header : ℕ → Buffer
unfolding new
with_header hdrlen =
    if ltb default_size hdrlen then new else record new { pos = add32 new.pos hdrlen }

unfoldable pub clear : Buffer → Buffer
clear b = record b { pos = 0; offset = 0 }

-- `CutData(len)`. `len` is the bit pattern of the `s_int32_t`, so -4 is 2 ^ 32 - 4.
unfoldable pub cut_data : Buffer → ℕ → Buffer
cut_data b len =
    if ltb b.pos (add32 b.offset len)
    then record b { offset = b.pos }
    else record b { offset = add32 b.offset len }

-- `Length()`; `Size()` is the field `pos` and `Capacity()` the field `size`.
unfoldable pub length_of : Buffer → ℕ
length_of b = sub32 b.pos b.offset

-- The reallocation of `Write`.
unfoldable pub grow : Buffer → ℕ → Buffer
unfolding malloc
grow b len =
    let size' = default_size * (add32 b.pos len / default_size + 1) % u32_mod in
    record b { size = size'; mem = memcpy (malloc size') 0 (take b.pos b.mem) }

-- `Write(data, len)`: `len` is the length of the list.
unfoldable pub write : Buffer → List ℕ → Buffer
write b bs =
    let b' = if ltb b.size (add32 b.pos (length bs)) then grow b (length bs) else b in
    record b' { mem = memcpy b'.mem b'.pos bs; pos = add32 b'.pos (length bs) }

-- `Write(value)` for a 32-bit `T`
unfoldable pub write_u32 : Buffer → ℕ → Buffer
write_u32 b v = write b (le_bytes v)

unfoldable pub write_string : Buffer → List ℕ → Buffer
write_string b s = let len = length s % u32_mod in write (write_u32 b len) (take len s)

-- `Read(data, len)`; `none` where the destination is left as it was.
unfoldable pub read : Buffer → ℕ → Buffer × Option (List ℕ)
read b len =
    if ltb b.pos (add32 b.offset len)
    then (b, none)
    else (record b { offset = add32 b.offset len }, some (take len (drop b.offset b.mem)))

-- `Read(value)` for a 32-bit `T` that held `old`
unfoldable pub read_u32 : Buffer → ℕ → Buffer × ℕ
read_u32 b old = let (b', r) = read b 4 in (b', elim r [ none ↦ old | some bs ↦ le_value bs ])

-- What `value = tmp` takes of a NUL-terminated block.
unfoldable pub c_string : List ℕ → List ℕ
c_string [] = []
c_string (c ∷ cs) = if c == 0 then [] else c ∷ c_string cs

-- `Read(value)` for a `std::string` that held `old`; `none` is an indeterminate string, since a
-- short buffer leaves `tmp` as `malloc` gave it.
unfoldable pub read_string : Buffer → List ℕ → Buffer × Option (List ℕ)
read_string b old =
    let (b', len) = read_u32 b 0 in
    if len == 0
    then (b', some old)
    else let (b'', r) = read b' len in (b'', elim r [ none ↦ none | some bs ↦ some (c_string bs) ])

-- `a.Swap(b)` on the pair of the two buffers.
unfoldable pub swap : Buffer × Buffer → Buffer × Buffer
swap (a, b) = (b, a)

-- The bytes written since the last `Clear`, and those of them that are not read yet.
abbrev pub written : Buffer → List ℕ
written b = take b.pos b.mem

abbrev pub contents : Buffer → List ℕ
contents b = drop b.offset (written b)
