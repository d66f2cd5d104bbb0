-- ===== src/Netio/Http/Response.antt =====
-- `HttpCliRecvMsg` (netio/httpmsg.hpp): the parser of a response, on top of `HttpBaseMsg`.
pub mod Consumed
use netlib.Common.{
  ℕ, suc, ◌-◌, Bool, true, false, List, [], ◌∷◌, ◌==◌, if◌then◌else◌, length, take, drop,
}
use netlib.Base.Buffer.{Buffer, new, write, swap}
use netlib.Netio.Http.Scan.{parse1}
use netlib.Netio.Http.Base.{
  BaseMsg, StrPos, Stage, in_method, in_url, in_ver, in_status_code, in_status_phrase, in_head,
  in_body, over, no_pos, base_clear, substr, Parsed, done, undefined, no_fuel, add_taken, lift,
  cut_line, note_cr, parse_body, parse_head, unknown_size,
}

pub record Response : Type 0 where
  pub base : BaseMsg
  pub version : StrPos
  pub statuscode : StrPos
  pub statusphrase : StrPos

unfoldable pub clear_response : Response → Response
clear_response m = record {
  base = record (base_clear m.base) { flag = in_ver };
  version = no_pos;
  statuscode = no_pos;
  statusphrase = no_pos;
}

-- A message as the constructor leaves it.
unfoldable pub new_response : Response
new_response = clear_response (record {
  base = record {
    buffer = new;
    header = no_pos;
    header2 = no_pos;
    body = no_pos;
    flag = in_ver;
    assistflag = false;
    header_iter = 0;
    bodysize = unknown_size;
    header_vec = [];
  };
  version = no_pos;
  statuscode = no_pos;
  statusphrase = no_pos;
})

-- The bytes copied, with the stage as it was.
abbrev pub copied : BaseMsg → ℕ → List ℕ → BaseMsg
copied m n buf = record m { buffer = write m.buffer (take n buf) }

-- Where the next part begins, once the end of a part was found in the bytes copied.
abbrev pub at_statuscode : Response → ℕ → List ℕ → Response
at_statuscode m n buf =
    let b = copied m.base n buf in
    record m {
      base = record b { flag = in_status_code };
      version = record m.version { end = b.buffer.pos - 1 };
      statuscode = record m.statuscode { beg = b.buffer.pos };
    }

abbrev pub at_statusphrase : Response → ℕ → List ℕ → Response
at_statusphrase m n buf =
    let b = copied m.base n buf in
    record m {
      base = record b { flag = in_status_phrase };
      statuscode = record m.statuscode { end = b.buffer.pos - 1 };
      statusphrase = record m.statusphrase { beg = b.buffer.pos };
    }

abbrev pub at_head : Response → ℕ → List ℕ → Response
at_head m n buf =
    let b = copied m.base n buf in
    record m {
      base = record b {
        flag = in_head;
        header = record b.header { beg = b.buffer.pos };
        header2 = record b.header2 { beg = b.buffer.pos };
        assistflag = false;
      };
      statusphrase = record m.statusphrase { end = b.buffer.pos - 2 };
    }

-- `_ParseHead` and `_ParseBody` of the base class.
abbrev pub head_on : Response → List ℕ → Parsed Response
head_on m buf = lift (λ b. record m { base = b }) (parse_head (suc (length buf)) m.base buf)

abbrev pub body_on : Response → List ℕ → Parsed Response
body_on m buf = lift (λ b. record m { base = b }) (parse_body m.base buf)

unfoldable pub parse_statusphrase : Response → List ℕ → Parsed Response
parse_statusphrase m [] = done m 0
parse_statusphrase m (c ∷ cs) =
    let buf = c ∷ cs in
    let (assist, (hit, n)) = cut_line m.base.assistflag buf in
    if hit
    then add_taken n (head_on (at_head m n buf) (drop n buf))
    else done (record m { base = note_cr (copied (record m.base { assistflag = assist }) n buf) }) n

unfoldable pub parse_statuscode : Response → List ℕ → Parsed Response
parse_statuscode m [] = done m 0
parse_statuscode m (c ∷ cs) =
    let buf = c ∷ cs in
    let (hit, n) = parse1 32 buf in
    if hit
    then add_taken n (parse_statusphrase (at_statusphrase m n buf) (drop n buf))
    else done (record m { base = copied m.base n buf }) n

unfoldable pub parse_version : Response → List ℕ → Parsed Response
parse_version m buf =
    let (hit, n) = parse1 32 buf in
    if hit
    then add_taken n (parse_statuscode (at_statuscode m n buf) (drop n buf))
    else done (record m { base = copied m.base n buf }) n

-- `Parse`, by `_flag`.
abbrev pub parse_at : Stage → Response → List ℕ → Parsed Response
parse_at in_ver m buf = parse_version m buf
parse_at in_status_code m buf = parse_statuscode m buf
parse_at in_status_phrase m buf = parse_statusphrase m buf
parse_at in_head m buf = head_on m buf
parse_at in_body m buf = body_on m buf
parse_at _ m buf = done m 0

unfoldable pub parse : Response → List ℕ → Parsed Response
parse m buf = parse_at m.base.flag m buf

-- The getters; each is empty until its part has ended.
unfoldable pub get_respond_line : Response → List ℕ
get_respond_line m =
    if m.statusphrase.end == 0
    then []
    else substr m.base.buffer (record { beg = m.version.beg; end = m.statusphrase.end })

unfoldable pub get_version : Response → List ℕ
get_version m = if m.version.end == 0 then [] else substr m.base.buffer m.version

unfoldable pub get_statuscode : Response → List ℕ
get_statuscode m = if m.statuscode.end == 0 then [] else substr m.base.buffer m.statuscode

unfoldable pub get_statusphrase : Response → List ℕ
get_statusphrase m = if m.statusphrase.end == 0 then [] else substr m.base.buffer m.statusphrase
