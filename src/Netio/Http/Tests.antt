-- ===== src/Netio/Http/Tests.antt =====
-- Http messages at concrete bytes.
use netlib.Common.{ℕ, ◌≡◌, refl, true, some, List, [], ◌∷◌, arith}
use netlib.Base.Buffer.{new, malloc, write, grow, clear, written}
use netlib.Base.Buffer.Valid.{new-IsValid, clear-IsValid}
use netlib.Netio.Http.Scan.{scan1, scan2, parse1, parse2}
use netlib.Netio.Http.ContentLength.{
  line_size, check_content_len, match_constr, until_cr, atoi, digits_value,
}
use netlib.Netio.Http.Base.{
  base_clear, substr, get_body, Parsed, done, undefined, no_fuel, cut_line, note_cr, end_line,
  head_line, start_body, end_body, take_body, parse_body, parse_head, Stage, in_method, over,
}
use netlib.Netio.Http.Base.Consumed.{Tame, unsized}
use netlib.Netio.Http.Request.{
  Request, clear_request, new_request, parse_method, parse_url, parse_ver, get_url,
}
use netlib.Netio.Http.Request.Consumed.{lower, parse_request-Tame}
use netlib.Netio.Http.Response.{new_response, clear_response}
use netlib.Netio.Http.Response.Consumed.{parse_response-Tame}
use netlib.Netio.Http.Reply.{new_reply, set_body}
use netlib.Netio.Http.Reply.Text.{page_text, set_body-text, length_line, line_size-length_line}
use netlib.Netio.Http.Socket.{cut_http}
use netlib.Netio.Http.Socket.Chunks.{Handed, new_request-Fresh, cut_http-Handed}

-- "POST /a HTTP/1.1\r\nContent-Length: 3\r\n\r\nxyz"
abbrev posted_text : List ℕ
posted_text =
    80 ∷ 79 ∷ 83 ∷ 84 ∷ 32 ∷ 47 ∷ 97 ∷ 32 ∷ 72 ∷ 84 ∷ 84 ∷ 80 ∷ 47 ∷ 49 ∷ 46 ∷ 49 ∷ 13 ∷ 10 ∷ 67
    ∷ 111 ∷ 110 ∷ 116 ∷ 101 ∷ 110 ∷ 116 ∷ 45 ∷ 76 ∷ 101 ∷ 110 ∷ 103 ∷ 116 ∷ 104 ∷ 58 ∷ 32 ∷ 51 ∷ 13
    ∷ 10 ∷ 13 ∷ 10 ∷ 120 ∷ 121 ∷ 122 ∷ []

parse_request-Tame_example :
    Tame new_request.base.buffer posted_text
      (lower (netlib.Netio.Http.Request.parse new_request posted_text))
parse_request-Tame_example =
    parse_request-Tame new_request posted_text new_request-Fresh.valid
      (unfold new_request clear_request base_clear clear in omega arith)
      (unsized new_request-Fresh.no_size)

-- The url and the body that the parser finds in it, and the stage it ends in.
url_and_body : Parsed Request → List ℕ × List ℕ × Stage
url_and_body (done m n) = (get_url m, get_body m.base, m.base.flag)
url_and_body undefined = ([], [], in_method)
url_and_body no_fuel = ([], [], in_method)

run_posted :
    url_and_body (netlib.Netio.Http.Request.parse new_request posted_text)
    ≡ (47 ∷ 97 ∷ [], 120 ∷ 121 ∷ 122 ∷ [], over)
unfolding url_and_body netlib.Netio.Http.Request.parse new_request clear_request base_clear new
    malloc write grow clear parse_method parse_url parse_ver parse1 parse2 scan1 scan2 cut_line
    note_cr end_line head_line start_body end_body take_body parse_body parse_head check_content_len
    line_size match_constr until_cr atoi digits_value substr get_body get_url
run_posted = refl

-- "HTTP/1.1 200 OK\r\n"
abbrev answer : List ℕ
answer = 72 ∷ 84 ∷ 84 ∷ 80 ∷ 47 ∷ 49 ∷ 46 ∷ 49 ∷ 32 ∷ 50 ∷ 48 ∷ 48 ∷ 32 ∷ 79 ∷ 75 ∷ 13 ∷ 10 ∷ []

parse_response-Tame_example : Tame new_response.base.buffer answer (
    netlib.Netio.Http.Response.Consumed.lower
      (netlib.Netio.Http.Response.parse new_response answer))
parse_response-Tame_example =
    parse_response-Tame new_response answer
      (unfold new_response clear_response base_clear clear in clear-IsValid new-IsValid)
      (unfold new_response clear_response base_clear clear in omega arith)
      (unsized (unfold new_response clear_response base_clear in refl))

cut_http-Handed_example : Handed posted_text (cut_http 60 new_request posted_text)
cut_http-Handed_example =
    cut_http-Handed 60 new_request posted_text new_request-Fresh (omega arith) (omega arith)
      (omega arith)

set_body-text_example :
    ((set_body (104 ∷ 105 ∷ []) new_reply).1 ≡ true)
    × (written (set_body (104 ∷ 105 ∷ []) new_reply).0.buffer ≡ page_text (104 ∷ 105 ∷ []))
set_body-text_example = set_body-text (104 ∷ 105 ∷ []) (omega arith)

line_size-length_line_example : line_size (length_line 1024) ≡ some (some 1024)
line_size-length_line_example = line_size-length_line 1024 (omega arith)
