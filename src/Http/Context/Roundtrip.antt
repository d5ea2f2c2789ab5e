-- ===== src/Http/Context/Roundtrip.antt =====
-- http/httpContext.cpp: whole requests, written out as text.
use tcp_net_library.Base.{
  ℕ, ◌≡◌, ◌≢◌, refl, ◌∙◌, true, false, List, [], ◌∷◌, ◌++◌, arith, some, length, length-append,
  ◌==◌, ne→==_false,
}
use tcp_net_library.Http.Text.{Lacks, Lacks-append, find, find-append}
use tcp_net_library.Http.Map.{StringMap, insert}
use tcp_net_library.Http.Request.{
  HttpRequest, empty_request, Method, Version, get, post, head, put, delete, invaild, unknow,
  http10, http11,
}
use tcp_net_library.Http.Context.{HttpContext, new_context, expect_request_head, got_all}
use tcp_net_library.Http.Context.Spec.{
  on_line, on_request_line, request_verdict, on_header, next, parse,
}
use tcp_net_library.Http.Context.Line.{
  request_line, method_name, version_name, IsQuery, process_request_line_ok,
}
use tcp_net_library.Http.Context.Header.{
  ended, parse_next, parse_done, HeaderOk, header_line, add_header_ok,
}

abbrev pub AllOk : StringMap → Type 0
AllOk [] = Unit {0}
AllOk ((field, value) ∷ hs) = HeaderOk field value × AllOk hs

-- The headers as text, with what follows them.
abbrev pub headers_text : StringMap → List ℕ → List ℕ
headers_text [] rest = rest
headers_text ((field, value) ∷ hs) rest = ended (header_line field value) (headers_text hs rest)

-- Each header is stored in turn; a later one with the same field replaces the value.
abbrev pub add_all : StringMap → StringMap → StringMap
add_all m [] = m
add_all m ((field, value) ∷ hs) = add_all (insert field value m) hs

abbrev pub in_head : HttpRequest → HttpContext
in_head r = record { state = expect_request_head; request = r }

abbrev with_header : HttpRequest → List ℕ → List ℕ → HttpRequest
with_header r field value = record r { headers = insert field value r.headers }

on_header_ok :
    (r : HttpRequest) (field value : List ℕ)
    → HeaderOk field value
    → on_header (in_head r) (header_line field value) ≡ next (in_head (with_header r field value))
unfolding on_header
on_header_ok r field value h =
    let f = find-append b':' field (32 ∷ value) h.no_colon in
    let n : (length field == length (header_line field value)) ≡ false =
      ne→==_false _ _ (omega (arith, length-append field (b':' ∷ 32 ∷ value))) in
    rw (f, n, add_header_ok r field value h)

pub parse_headers :
    (hs : StringMap) (r : HttpRequest) (rest : List ℕ) (time : ℕ)
    → AllOk hs
    → parse (in_head r) (headers_text hs (ended [] rest)) time
      ≡ some (
        true,
        record { state = got_all; request = record r { headers = add_all r.headers hs } },
        rest,
      )
parse_headers [] r rest time h =
    parse_done (in_head r) (record { state = got_all; request = r }) [] rest time tt
      (unfold on_line on_header find in refl)
parse_headers ((field, value) ∷ hs) r rest time h =
    parse_next (in_head r) (in_head (with_header r field value)) (header_line field value)
      (headers_text hs (ended [] rest)) time
      (Lacks-append 13 field (b':' ∷ 32 ∷ value) h.0.no_cr
        (omega arith, (omega arith, h.0.value_no_cr)))
      (unfold on_line in on_header_ok r field value h.0)
    ∙ parse_headers hs (with_header r field value) rest time h.1

-- A request as text: its line, its headers, an empty line.
abbrev pub request_text : Method → List ℕ → List ℕ → Version → StringMap → List ℕ → List ℕ
request_text m path query v hs rest =
    ended (request_line m path query v) (headers_text hs (ended [] rest))

-- What the parser reads back needs: none of the bytes that part the text stands inside a part.
pub record RequestOk (m : Method) (path query : List ℕ) (v : Version) : Type 0 where
  pub known_method : m ≢ invaild
  pub known_version : v ≢ unknow
  pub no_space : Lacks b' ' (path ++ query)
  pub no_question : Lacks b'?' path
  pub query_form : IsQuery query
  pub no_cr : Lacks 13 (path ++ query)

method_name-Lacks_cr : (m : Method) → Lacks 13 (method_name m)
method_name-Lacks_cr get = omega arith
method_name-Lacks_cr post = omega arith
method_name-Lacks_cr head = omega arith
method_name-Lacks_cr put = omega arith
method_name-Lacks_cr delete = omega arith
method_name-Lacks_cr invaild = omega arith

version_name-Lacks_cr : (v : Version) → Lacks 13 (version_name v)
version_name-Lacks_cr http10 = omega arith
version_name-Lacks_cr http11 = omega arith
version_name-Lacks_cr unknow = tt

-- The request of the line alone.
abbrev pub read_line : Method → List ℕ → List ℕ → Version → ℕ → HttpRequest
read_line m path query v time = record {
  method = m;
  version = v;
  path = path;
  query = query;
  receive_time = time;
  headers = [];
}

-- A new parser reads a request, written as a line, headers and an empty line, back: method, path,
-- query and version are those written, the headers are stored in turn, the time is that of the read,
-- and the bytes behind the empty line are left.
pub parse-request_text :
    (m : Method) (path query : List ℕ) (v : Version) (hs : StringMap) (rest : List ℕ) (time : ℕ)
    → RequestOk m path query v
    → AllOk hs
    → parse new_context (request_text m path query v hs rest) time
      ≡ some (
        true,
        record {
          state = got_all;
          request = record (read_line m path query v time) { headers = add_all [] hs };
        },
        rest,
      )
parse-request_text m path query v hs rest time q h =
    parse_next new_context (in_head (read_line m path query v time)) (request_line m path query v)
      (headers_text hs (ended [] rest)) time
      (Lacks-append 13 (method_name m) _ (method_name-Lacks_cr m) (
        omega arith,
        Lacks-append 13 (path ++ query) _ q.no_cr (omega arith, version_name-Lacks_cr v),
      ))
      (unfold on_line on_request_line in
        rw
          (process_request_line_ok empty_request m path query v q.known_method q.known_version
            q.no_space q.no_question q.query_form refl)
          (unfold request_verdict in refl))
    ∙ parse_headers hs (read_line m path query v time) rest time h
