-- ===== src/Netio/Http/Reply.antt =====
-- `HttpSvrSendMsg` (netio/httpmsg.hpp): the reply of a server, built part by part. `_flag` keeps
-- which parts are there; a part that comes twice or too early is refused (the code also asserts).
pub mod Text
use netlib.Common.{
  ℕ, suc, ◌+◌, ◌*◌, ◌/◌, ◌%◌, ◌^◌, Bool, true, false, not, ◌&&◌, List, [], ◌∷◌, ◌++◌, ltb,
  if◌then◌else◌, length, zero,
}
use netlib.Base.Buffer.{Buffer, new}
use netlib.Base.Buffer.Pack.{write_each}

-- `_flag`, one field for each bit.
pub record Parts : Type 0 where
  pub ver : Bool
  pub status_code : Bool
  pub status_phrase : Bool
  pub location : Bool
  pub cont_coding : Bool
  pub cont_type : Bool
  pub cont_language : Bool
  pub date : Bool
  pub server : Bool
  pub body : Bool

pub record Reply : Type 0 where
  pub buffer : Buffer
  pub flag : Parts

unfoldable pub new_reply : Reply
new_reply = record {
  buffer = new;
  flag = record {
    ver = false;
    status_code = false;
    status_phrase = false;
    location = false;
    cont_coding = false;
    cont_type = false;
    cont_language = false;
    date = false;
    server = false;
    body = false;
  };
}

-- The first line is complete.
abbrev pub line_done : Parts → Bool
line_done f = f.ver && f.status_code && f.status_phrase

abbrev pub blank_text : List ℕ
blank_text = 32 ∷ []

abbrev pub crlf : List ℕ
crlf = 13 ∷ 10 ∷ []

-- A setter: refused, or its texts are written and its bit is set.
abbrev pub add_part : Bool → List (List ℕ) → Parts → Reply → Reply × Bool
add_part allowed texts f r =
    if allowed then (record { buffer = write_each r.buffer texts; flag = f }, true) else (r, false)

unfoldable pub set_http_version : List ℕ → Reply → Reply × Bool
set_http_version ver r =
    add_part (not r.flag.ver) (ver ∷ blank_text ∷ []) (record r.flag { ver = true }) r

unfoldable pub set_status_code : List ℕ → Reply → Reply × Bool
set_status_code status r =
    add_part (not r.flag.status_code && r.flag.ver) (status ∷ blank_text ∷ [])
      (record r.flag { status_code = true }) r

unfoldable pub set_status_phrase : List ℕ → Reply → Reply × Bool
set_status_phrase phrase r =
    add_part (not r.flag.status_phrase && (r.flag.ver && r.flag.status_code)) (phrase ∷ crlf ∷ [])
      (record r.flag { status_phrase = true }) r

-- "Location: "
abbrev location_text : List ℕ
location_text = 76 ∷ 111 ∷ 99 ∷ 97 ∷ 116 ∷ 105 ∷ 111 ∷ 110 ∷ 58 ∷ 32 ∷ []

unfoldable pub set_location : List ℕ → Reply → Reply × Bool
set_location value r =
    add_part (not r.flag.location && line_done r.flag) (location_text ∷ value ∷ crlf ∷ [])
      (record r.flag { location = true }) r

-- "Content-Encoding: "
abbrev cont_coding_text : List ℕ
cont_coding_text =
    67 ∷ 111 ∷ 110 ∷ 116 ∷ 101 ∷ 110 ∷ 116 ∷ 45 ∷ 69 ∷ 110 ∷ 99 ∷ 111 ∷ 100 ∷ 105 ∷ 110 ∷ 103 ∷ 58
    ∷ 32 ∷ []

unfoldable pub set_content_encode : List ℕ → Reply → Reply × Bool
set_content_encode value r =
    add_part (not r.flag.cont_coding && line_done r.flag) (cont_coding_text ∷ value ∷ crlf ∷ [])
      (record r.flag { cont_coding = true }) r

-- "Content-Type: "
abbrev pub cont_type_text : List ℕ
cont_type_text = 67 ∷ 111 ∷ 110 ∷ 116 ∷ 101 ∷ 110 ∷ 116 ∷ 45 ∷ 84 ∷ 121 ∷ 112 ∷ 101 ∷ 58 ∷ 32 ∷ []

unfoldable pub set_content_type : List ℕ → Reply → Reply × Bool
set_content_type value r =
    add_part (not r.flag.cont_type && line_done r.flag) (cont_type_text ∷ value ∷ crlf ∷ [])
      (record r.flag { cont_type = true }) r

-- "Content-Language: "
abbrev cont_language_text : List ℕ
cont_language_text =
    67 ∷ 111 ∷ 110 ∷ 116 ∷ 101 ∷ 110 ∷ 116 ∷ 45 ∷ 76 ∷ 97 ∷ 110 ∷ 103 ∷ 117 ∷ 97 ∷ 103 ∷ 101 ∷ 58
    ∷ 32 ∷ []

unfoldable pub set_content_language : List ℕ → Reply → Reply × Bool
set_content_language value r =
    add_part (not r.flag.cont_language && line_done r.flag) (cont_language_text ∷ value ∷ crlf ∷ [])
      (record r.flag { cont_language = true }) r

-- `SetSever`. `Write((void*)"...")` without a length is the template on a `void*`: it writes the
-- pointer and not the text. `name` and `line_end` are the bytes of the two pointers.
unfoldable pub set_server : List ℕ → List ℕ → List ℕ → Reply → Reply × Bool
set_server name line_end value r =
    add_part (not r.flag.server && line_done r.flag) (name ∷ value ∷ line_end ∷ [])
      (record r.flag { server = true }) r

-- `SetDate`. `Write((void*)"...")` without a length is the template on a `void*`: it writes the
-- pointer and not the text. `name` and `line_end` are the bytes of the two pointers.
unfoldable pub set_date : List ℕ → List ℕ → List ℕ → Reply → Reply × Bool
set_date name line_end value r =
    add_part (not r.flag.date && line_done r.flag) (name ∷ value ∷ line_end ∷ [])
      (record r.flag { date = true }) r

-- `snprintf(tmp, 20, "%d", len)` for a length of at most `fuel` digits.
unfoldable pub decimal : ℕ → ℕ → List ℕ
decimal zero n = []
decimal (suc fuel) n =
    let front = decimal fuel (n / 10) in
    if ltb n 10 then (48 + n) ∷ [] else front ++ ((48 + n % 10) ∷ [])

-- An `int` has at most ten digits.
abbrev pub int_digits : ℕ
int_digits = 10

-- "HTTP/1.1", "200", "OK", "text/html;charset=utf-8", "Content-Length: "
abbrev pub http_1_1 : List ℕ
http_1_1 = 72 ∷ 84 ∷ 84 ∷ 80 ∷ 47 ∷ 49 ∷ 46 ∷ 49 ∷ []

abbrev pub ok_200 : List ℕ
ok_200 = 50 ∷ 48 ∷ 48 ∷ []

abbrev pub ok_phrase : List ℕ
ok_phrase = 79 ∷ 75 ∷ []

abbrev pub html_type : List ℕ
html_type =
    116 ∷ 101 ∷ 120 ∷ 116 ∷ 47 ∷ 104 ∷ 116 ∷ 109 ∷ 108 ∷ 59 ∷ 99 ∷ 104 ∷ 97 ∷ 114 ∷ 115 ∷ 101 ∷ 116
    ∷ 61 ∷ 117 ∷ 116 ∷ 102 ∷ 45 ∷ 56 ∷ []

abbrev pub content_length_text : List ℕ
content_length_text =
    67 ∷ 111 ∷ 110 ∷ 116 ∷ 101 ∷ 110 ∷ 116 ∷ 45 ∷ 76 ∷ 101 ∷ 110 ∷ 103 ∷ 116 ∷ 104 ∷ 58 ∷ 32 ∷ []

-- A part that `SetBody` adds if it is not there.
abbrev pub unless : Bool → (Reply → Reply × Bool) → Reply → Reply
unless there setter r = if there then r else (setter r).0

unfoldable pub with_defaults : Reply → Reply
with_defaults r =
    let r1 = unless r.flag.ver (set_http_version http_1_1) r in
    let r2 = unless r1.flag.status_code (set_status_code ok_200) r1 in
    let r3 = unless r2.flag.status_phrase (set_status_phrase ok_phrase) r2 in
    unless r3.flag.cont_type (set_content_type html_type) r3

unfoldable pub set_body : List ℕ → Reply → Reply × Bool
set_body body r =
    let r' = with_defaults r in
    let len = decimal int_digits (length body) in
    if r.flag.body
    then (r, false)
    else add_part true (content_length_text ∷ len ∷ (crlf ++ crlf) ∷ body ∷ [])
        (record r'.flag { body = true }) r'
