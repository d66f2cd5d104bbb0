-- ===== src/Netio/Http/Base.antt =====
-- `HttpBaseMsg` (netio/httpmsg.hpp): the header lines and the body of an http message that
-- arrives in chunks. Positions in the buffer are C++ `int`s; they are kept below 2 ^ 31 by the
-- room that the theorems ask for.
pub mod Consumed
pub mod Body
pub mod Head
use netlib.Common.{
  ℕ, zero, suc, ◌+◌, ◌-◌, ◌^◌, Bool, true, false, not, ◌&&◌, Option, none, some, List, [], ◌∷◌,
  ◌++◌, ltb, ◌==◌, if◌then◌else◌, length, map, take, drop, get_or, add32, sub32,
}
use netlib.Base.Buffer.{Buffer, clear, write, contents}
use netlib.Netio.Http.Scan.{parse2}
use netlib.Netio.Http.ContentLength.{check_content_len}

-- `_flag`: E_PARSE_METHOD and so on.
pub data Stage : Type 0 where
  in_method in_url in_ver in_status_code in_status_phrase in_head in_body over : Stage

abbrev pub is_over : Stage → Bool
is_over over = true
is_over _ = false

pub record StrPos : Type 0 where
  pub beg : ℕ
  pub end : ℕ

-- `_bodysize` is the bit pattern of the `int`; -1 is `unknown_size`.
pub record BaseMsg : Type 0 where
  pub buffer : Buffer
  pub header : StrPos
  pub header2 : StrPos
  pub body : StrPos
  pub flag : Stage
  pub assistflag : Bool
  pub header_iter : ℕ
  pub bodysize : ℕ
  pub header_vec : List StrPos

abbrev pub unknown_size : ℕ
unknown_size = 2 ^ 32 - 1

abbrev pub no_pos : StrPos
no_pos = record { beg = 0; end = 0 }

-- `HttpBaseMsg::Clear`, which leaves `_flag` to the derived class.
unfoldable pub base_clear : BaseMsg → BaseMsg
base_clear m = record {
  buffer = clear m.buffer;
  header = no_pos;
  header2 = no_pos;
  body = no_pos;
  flag = m.flag;
  assistflag = false;
  header_iter = 0;
  bodysize = unknown_size;
  header_vec = [];
}

-- `std::string(_buffer.Data() + p.beg, p.end - p.beg)`
unfoldable pub substr : Buffer → StrPos → List ℕ
substr b p = take (p.end - p.beg) (drop p.beg (contents b))

unfoldable pub get_header : BaseMsg → List ℕ
get_header m = if m.header.end == 0 then [] else substr m.buffer m.header

unfoldable pub get_body : BaseMsg → List ℕ
get_body m = if m.body.end == 0 then [] else substr m.buffer m.body

-- `NextHeader`, without the `\r\n` that a header's positions include.
unfoldable pub next_header : BaseMsg → BaseMsg × List ℕ
next_header m =
    let p = get_or m.header_vec m.header_iter no_pos in
    if m.header_iter == length m.header_vec then (m, []) else (
      record m { header_iter = suc m.header_iter },
      substr m.buffer (record p { end = p.end - 2 }),
    )

-- What a parsing step leaves and how much it took; `undefined` is a memory access out of bounds,
-- `no_fuel` is fuel that ran out.
pub data Parsed (M : Type 0) : Type 0 where
  done : M → ℕ → Parsed M
  undefined no_fuel : Parsed M

-- `copy_len +` the rest
abbrev pub add_taken : {M : Type 0} → ℕ → Parsed M → Parsed M
add_taken n (done m k) = done m (n + k)
add_taken n undefined = undefined
add_taken n no_fuel = no_fuel

-- How the line is looked for that ends a header: `_assistflag`, whether it was found, and how much
-- to copy. A line may be cut between `\r` and `\n`; `_assistflag` remembers the `\r`.
unfoldable pub cut_line : Bool → List ℕ → Bool × (Bool × ℕ)
cut_line assist buf =
    if assist && (get_or buf 0 0 == 10) then (true, (true, 1)) else (false, parse2 13 10 buf)

-- Nothing was found: does the buffer end with `\r`?
unfoldable pub note_cr : BaseMsg → BaseMsg
note_cr m =
    if not m.assistflag && (get_or m.buffer.mem (m.buffer.offset + m.buffer.pos - 1) 0 == 13)
    then record m { assistflag = true }
    else m

-- How one round of `_ParseHead` ends: with the empty line, another line, or no line's end.
pub data HeadLine : Type 0 where
  blank header_line unfinished : BaseMsg → ℕ → HeadLine

-- The positions after a line was found.
unfoldable pub end_line : BaseMsg → ℕ → HeadLine
end_line m n =
    let pos = m.buffer.pos in
    let h2 : StrPos = record m.header2 { end = pos } in
    let m' = record m {
      assistflag = false;
      header = record m.header { end = pos };
      header2 = h2;
      header_vec = m.header_vec ++ (h2 ∷ []);
    } in
    if h2.beg + 2 == h2.end
    then blank (record m' { flag = in_body }) n
    else header_line (record m' { flag = in_head; header2 = record { beg = pos; end = 0 } }) n

unfoldable pub head_line : BaseMsg → List ℕ → HeadLine
head_line m buf =
    let (assist, (hit, n)) = cut_line m.assistflag buf in
    let m' = record m { assistflag = assist; buffer = write m.buffer (take n buf) } in
    if hit then end_line m' n else unfinished (note_cr m') n

-- `_ParseBody`: the size is looked up when the first byte of the body is there.
abbrev pub start_sized : BaseMsg → Option ℕ → Option BaseMsg
start_sized m none = none
start_sized m (some n) =
    if n == 0
    then some (record m { bodysize = 0; flag = over })
    else some (record m { bodysize = n; body = record m.body { beg = m.buffer.pos } })

-- `_CheckContentLen` on the lines that `_header_vec` points to.
abbrev pub header_size : BaseMsg → Option ℕ
header_size m = check_content_len (map (substr m.buffer) m.header_vec)

unfoldable pub start_body : BaseMsg → Option BaseMsg
start_body m = if m.bodysize == unknown_size then start_sized m (header_size m) else some m

-- `copy_len > len` for `int`s given as bit patterns.
abbrev pub int_gtb : ℕ → ℕ → Bool
int_gtb a b = ltb (add32 b (2 ^ 31)) (add32 a (2 ^ 31))

unfoldable pub end_body : BaseMsg → BaseMsg
end_body m = if is_over m.flag then record m { body = record m.body { end = m.buffer.pos } } else m

-- A negative `copy_len` is a huge one for `Write`.
unfoldable pub take_body : BaseMsg → List ℕ → Parsed BaseMsg
take_body m buf =
    let len = length buf in
    let copy_len = sub32 m.bodysize (sub32 m.buffer.pos m.body.beg) in
    if m.bodysize == 0
    then done m 0
    else if int_gtb copy_len len
    then done (end_body (record m { buffer = write m.buffer buf })) len
    else if ltb len copy_len
    then undefined
    else done (end_body (record m { flag = over; buffer = write m.buffer (take copy_len buf) }))
        copy_len

abbrev pub then_take : List ℕ → Option BaseMsg → Parsed BaseMsg
then_take buf none = undefined
then_take buf (some m) = take_body m buf

unfoldable pub parse_body : BaseMsg → List ℕ → Parsed BaseMsg
parse_body m [] = done m 0
parse_body m (c ∷ cs) = then_take (c ∷ cs) (start_body m)

abbrev pub after_line : (BaseMsg → List ℕ → Parsed BaseMsg) → List ℕ → HeadLine → Parsed BaseMsg
after_line again buf (blank m n) = add_taken n (parse_body m (drop n buf))
after_line again buf (header_line m n) = add_taken n (again m (drop n buf))
after_line again buf (unfinished m n) = done m n

-- `_ParseHead`
unfoldable pub parse_head : ℕ → BaseMsg → List ℕ → Parsed BaseMsg
parse_head zero m buf = no_fuel
parse_head (suc fuel) m [] = done m 0
parse_head (suc fuel) m (c ∷ cs) = after_line (parse_head fuel) (c ∷ cs) (head_line m (c ∷ cs))

-- The result of a part of the message, put back into the whole.
abbrev pub lift : {M : Type 0} → (BaseMsg → M) → Parsed BaseMsg → Parsed M
lift f (done m n) = done (f m) n
lift f undefined = undefined
lift f no_fuel = no_fuel
