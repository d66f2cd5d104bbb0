-- ===== src/Netio/Http/Request.antt =====
-- `HttpSvrRecvMsg` (netio/httpmsg.hpp): the parser of a request, on top of `HttpBaseMsg`.
pub mod Consumed
use netlib.Common.{
  ℕ, suc, ◌-◌, Bool, true, false, List, [], ◌∷◌, ◌==◌, if◌then◌else◌, length, take, drop,
}
use netlib.Base.Buffer.{Buffer, new, write, swap}
use netlib.Netio.Http.Scan.{parse1}
use netlib.Netio.Http.Base.{
  BaseMsg, StrPos, Stage, in_method, in_url, in_ver, in_status_code, in_status_phrase, in_head,
  in_body, over, no_pos, base_clear, substr, Parsed, done, undefined, no_fuel, add_taken, lift,
  cut_line, note_cr, parse_body, parse_head, unknown_size,
}

pub record Request : Type 0 where
  pub base : BaseMsg
  pub method : StrPos
  pub url : StrPos
  pub ver : StrPos

unfoldable pub clear_request : Request → Request
clear_request m = record {
  base = record (base_clear m.base) { flag = in_method };
  method = no_pos;
  url = no_pos;
  ver = no_pos;
}

-- A message as the constructor leaves it.
unfoldable pub new_request : Request
new_request = clear_request (record {
  base = record {
    buffer = new;
    header = no_pos;
    header2 = no_pos;
    body = no_pos;
    flag = in_method;
    assistflag = false;
    header_iter = 0;
    bodysize = unknown_size;
    header_vec = [];
  };
  method = no_pos;
  url = no_pos;
  ver = no_pos;
})

-- The bytes copied, with the stage as it was.
abbrev pub copied : BaseMsg → ℕ → List ℕ → BaseMsg
copied m n buf = record m { buffer = write m.buffer (take n buf) }

-- Where the next part begins, once the end of a part was found in the bytes copied.
abbrev pub at_url : Request → ℕ → List ℕ → Request
at_url m n buf =
    let b = copied m.base n buf in
    record m {
      base = record b { flag = in_url };
      method = record m.method { end = b.buffer.pos - 1 };
      url = record m.url { beg = b.buffer.pos };
    }

abbrev pub at_ver : Request → ℕ → List ℕ → Request
at_ver m n buf =
    let b = copied m.base n buf in
    record m {
      base = record b { flag = in_ver };
      url = record m.url { end = b.buffer.pos - 1 };
      ver = record m.ver { beg = b.buffer.pos };
    }

abbrev pub at_head : Request → ℕ → List ℕ → Request
at_head m n buf =
    let b = copied m.base n buf in
    record m {
      base = record b {
        flag = in_head;
        header = record b.header { beg = b.buffer.pos };
        header2 = record b.header2 { beg = b.buffer.pos };
        assistflag = false;
      };
      ver = record m.ver { end = b.buffer.pos - 2 };
    }

-- `_ParseHead` and `_ParseBody` of the base class.
abbrev pub head_on : Request → List ℕ → Parsed Request
head_on m buf = lift (λ b. record m { base = b }) (parse_head (suc (length buf)) m.base buf)

abbrev pub body_on : Request → List ℕ → Parsed Request
body_on m buf = lift (λ b. record m { base = b }) (parse_body m.base buf)

unfoldable pub parse_ver : Request → List ℕ → Parsed Request
parse_ver m [] = done m 0
parse_ver m (c ∷ cs) =
    let buf = c ∷ cs in
    let (assist, (hit, n)) = cut_line m.base.assistflag buf in
    if hit
    then add_taken n (head_on (at_head m n buf) (drop n buf))
    else done (record m { base = note_cr (copied (record m.base { assistflag = assist }) n buf) }) n

unfoldable pub parse_url : Request → List ℕ → Parsed Request
parse_url m [] = done m 0
parse_url m (c ∷ cs) =
    let buf = c ∷ cs in
    let (hit, n) = parse1 32 buf in
    if hit
    then add_taken n (parse_ver (at_ver m n buf) (drop n buf))
    else done (record m { base = copied m.base n buf }) n

unfoldable pub parse_method : Request → List ℕ → Parsed Request
parse_method m buf =
    let (hit, n) = parse1 32 buf in
    if hit
    then add_taken n (parse_url (at_url m n buf) (drop n buf))
    else done (record m { base = copied m.base n buf }) n

-- `Parse`, by `_flag`.
abbrev pub parse_at : Stage → Request → List ℕ → Parsed Request
parse_at in_method m buf = parse_method m buf
parse_at in_url m buf = parse_url m buf
parse_at in_ver m buf = parse_ver m buf
parse_at in_head m buf = head_on m buf
parse_at in_body m buf = body_on m buf
parse_at _ m buf = done m 0

unfoldable pub parse : Request → List ℕ → Parsed Request
parse m buf = parse_at m.base.flag m buf

-- The getters; each is empty until its part has ended.
unfoldable pub get_request_line : Request → List ℕ
get_request_line m =
    if m.ver.end == 0
    then []
    else substr m.base.buffer (record { beg = m.method.beg; end = m.ver.end })

unfoldable pub get_method : Request → List ℕ
get_method m = if m.method.end == 0 then [] else substr m.base.buffer m.method

unfoldable pub get_url : Request → List ℕ
get_url m = if m.url.end == 0 then [] else substr m.base.buffer m.url

unfoldable pub get_ver : Request → List ℕ
get_ver m = if m.ver.end == 0 then [] else substr m.base.buffer m.ver
