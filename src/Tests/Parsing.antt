-- ===== src/Tests/Parsing.antt =====
-- The parser's theorems at small requests.
use tcp_net_library.Base.{
  ℕ, ok, ◌+◌, length, ◌≡◌, refl, true, List, [], ◌∷◌, ◌++◌, arith, some, replicate, inl, inr,
}
use tcp_net_library.Buffer.{Buffer, append, find_crlf, search_crlf, retrieve_until, retrieve, slice}
use tcp_net_library.Buffer.Invariant as Inv
use tcp_net_library.Buffer.Invariant.{contents}
use tcp_net_library.Http.Text.{codes, find, isspace}
use tcp_net_library.Http.Map.{StringMap}
use tcp_net_library.Http.Request.{
  get, post, head, put, delete, http11, invaild, empty_request, method_of, set_method,
}
use tcp_net_library.Http.Context.{
  parse_loop, pass, pass_at, request_line_pass, request_head_pass, finish_request_line,
  finish_header, after_pass, HttpContext, expect_request_head, got_all, new_context,
  process_request_line, after_method, set_protocol, set_target, parse_request,
}
use tcp_net_library.Http.Context.Spec.{parse}
use tcp_net_library.Http.Context.Arrival.{SameAnswer, parse_request-append}
use tcp_net_library.Http.Context.Unknown.{unread, parse_request-IsUnknown}
use tcp_net_library.Http.Context.Header.{ended}
use tcp_net_library.Http.Context.Total.{Agrees, parse_request-Agrees}
use tcp_net_library.Http.Context.Line.{IsUnknown}
use tcp_net_library.Http.Context.Roundtrip.{
  RequestOk, AllOk, headers_text, request_text, read_line, add_all, parse-request_text,
}

-- "GET / HTTP/1.1" with its end, and the beginning of a header
abbrev arrived : List ℕ
arrived = codes "GET / HTTP/1.1" ++ 13 ∷ 10 ∷ codes "Ho"

abbrev filled : Buffer
filled = record { buffer = replicate 8 0 ++ arrived; read_index = 8; write_index = 26 }

filled-IsValid : Inv.IsValid filled
filled-IsValid = omega arith

parse_request-Agrees_example :
    Agrees filled (parse new_context (contents filled) 7) (parse_request new_context filled 7)
parse_request-Agrees_example = parse_request-Agrees new_context filled 7 (inl refl) filled-IsValid

-- The first line has been read.
abbrev in_head : HttpContext
in_head = record {
  state = expect_request_head;
  request = record empty_request {
    method = get;
    version = http11;
    path = codes "/";
    receive_time = 7;
  };
}

abbrev read_once : Buffer
read_once = record filled { read_index = 24 }

first_read : parse_request new_context filled 7 ≡ ok (true, in_head, read_once)
unfolding parse_request parse_loop pass pass_at request_line_pass request_head_pass
    finish_request_line finish_header after_pass find_crlf search_crlf retrieve_until retrieve slice
    process_request_line find set_method method_of after_method set_protocol set_target
first_read = refl

parse_request-append_example :
    (joined : Buffer) × (whole : Buffer) × (append read_once (codes "st: me") ≡ ok joined)
    × (append filled (codes "st: me") ≡ ok whole)
    × SameAnswer (parse_request in_head joined 7) (parse_request new_context whole 7)
parse_request-append_example =
    parse_request-append new_context in_head filled read_once (codes "st: me") 7 (inl refl)
      filled-IsValid first_read (inr refl) (omega arith)

abbrev host : StringMap
host = (codes "Host", codes "me") ∷ []

target_ok : RequestOk get (codes "/a") (codes "?x=1") http11
target_ok = record {
  known_method = λ e. absurd (cc e);
  known_version = λ e. absurd (cc e);
  no_space = omega arith;
  no_question = omega arith;
  no_cr = omega arith;
  query_form = refl;
}

host_ok : AllOk host
unfolding isspace
host_ok = (
  record {
    no_colon = omega arith;
    no_cr = omega arith;
    value_no_cr = omega arith;
    first = refl;
    last = refl;
  },
  tt,
)

parse-request_text_example :
    parse new_context (request_text get (codes "/a") (codes "?x=1") http11 host (codes "rest")) 7
    ≡ some (
      true,
      record {
        state = got_all;
        request = record (read_line get (codes "/a") (codes "?x=1") http11 7) {
          headers = add_all [] host;
        };
      },
      codes "rest",
    )
parse-request_text_example =
    parse-request_text get (codes "/a") (codes "?x=1") http11 host (codes "rest") 7 target_ok
      host_ok

-- A request with the method FETCH, and a byte behind it.
abbrev fetch : List ℕ
fetch = ended (codes "FETCH" ++ 32 ∷ codes "/ HTTP/1.1") (headers_text host (ended [] (7 ∷ [])))

abbrev fetched : Buffer
fetched = record { buffer = replicate 8 0 ++ fetch; read_index = 8; write_index = 8 + length fetch }

fetch-IsUnknown : IsUnknown (codes "FETCH")
fetch-IsUnknown get h e = cc e
fetch-IsUnknown post h e = cc e
fetch-IsUnknown head h e = cc e
fetch-IsUnknown put h e = cc e
fetch-IsUnknown delete h e = cc e
fetch-IsUnknown invaild h e = h refl

parse_request-IsUnknown_example :
    (left : Buffer) × (parse_request new_context fetched 7
      ≡ ok (true, record { state = got_all; request = unread 7 host }, left))
    × (contents left ≡ 7 ∷ [])
parse_request-IsUnknown_example =
    parse_request-IsUnknown fetched (codes "FETCH") (codes "/ HTTP/1.1") (7 ∷ []) host 7
      (omega arith) refl fetch-IsUnknown (omega arith) (omega arith) (omega arith) host_ok
