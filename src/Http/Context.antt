-- ===== src/Http/Context.antt =====
-- http/httpContext.h and httpContext.cpp: the parser of requests, a state machine over a buffer.
pub mod Spec
pub mod Stream
pub mod Arrival
pub mod Refine
pub mod Total
pub mod Line
pub mod Header
pub mod Roundtrip
pub mod Unknown
use tcp_net_library.Base.{
  ℕ, zero, suc, ◌+◌, ◌-◌, ◌≡◌, refl, Bool, true, false, not, ◌&&◌, List, [], ◌∷◌, ◌++◌, Option,
  none, some, length, take, drop, ◌==◌, if◌then◌else◌, sub64, Result, ok, fault, out_of_fuel, ◌>>=◌,
  ◌>>◌,
}
use tcp_net_library.Buffer.{Buffer, peek, slice, find_crlf, retrieve_until, readable_bytes}
use tcp_net_library.Http.Text.{codes, str_eq, find}
use tcp_net_library.Http.Request.{
  HttpRequest, empty_request, set_method, set_path, set_query, set_version, set_receive_time,
  add_header, swap, http10, http11,
}

pub data ParseState : Type 0 where
  expect_request_line expect_request_head expect_request_body got_all : ParseState

pub record HttpContext : Type 0 where
  pub state : ParseState
  pub request : HttpRequest

abbrev pub new_context : HttpContext
new_context = record { state = expect_request_line; request = empty_request }

abbrev pub got_all? : HttpContext → Bool
got_all? c = elim c.state [ got_all ↦ true | _ ↦ false ]

unfoldable pub reset : HttpContext → HttpContext
unfolding swap
reset c = record { state = expect_request_line; request = (swap c.request empty_request).0 }

-- The path and the query between two spaces; the query keeps its question mark.
unfoldable pub set_target : HttpRequest → List ℕ → HttpRequest
set_target r target =
    let question = find b'?' target in
    if question == length target
    then set_path r target
    else set_query (set_path r (take question target)) (drop question target)

-- The version after the second space, at offset `start` of the line. The comparison of
-- `end - start` with 8 is of signed numbers: `start` may be one past the end.
unfoldable pub set_protocol : HttpRequest → List ℕ → ℕ → HttpRequest × Bool
set_protocol r line start =
    if start + 8 == length line && str_eq (take 7 (drop start line)) (codes "HTTP/1.")
    then if str_eq (drop (start + 7) line) (codes "1")
      then (set_version r http11, true)
      else if str_eq (drop (start + 7) line) (codes "0")
      then (set_version r http10, true)
      else (r, false)
    else (r, false)

-- The rest of the line, after the first space.
unfoldable pub after_method : HttpRequest → List ℕ → ℕ → HttpRequest × Bool
after_method r line start =
    let space = start + find b' ' (drop start line) in
    let targeted =
      if space == length line then r else set_target r (take (space - start) (drop start line)) in
    set_protocol targeted line (space + 1)

-- `success` starts as true, and stays so where there is no space or the method is unknown.
unfoldable pub process_request_line : HttpRequest → List ℕ → HttpRequest × Bool
process_request_line r line =
    let space = find b' ' line in
    let (named, known) = set_method r (take space line) in
    if space == length line
    then (r, true)
    else if known
    then after_method named line (space + 1)
    else (named, true)

pub record Pass : Type 0 where
  pub success : Bool
  pub has_more : Bool
  pub context : HttpContext
  pub buffer : Buffer

-- The bytes from `peek()` to a pointer.
abbrev pub line_to : Buffer → ℕ → Result (List ℕ)
line_to b crlf = slice b.buffer (peek b) (sub64 crlf (peek b))

-- After `processRequestLine`: the line is taken out only where it was accepted.
unfoldable pub finish_request_line : HttpContext → Buffer → ℕ → ℕ → HttpRequest → Bool → Result Pass
finish_request_line c b time crlf r false =
    ok
      (record { success = false; has_more = false; context = record c { request = r }; buffer = b })
finish_request_line c b time crlf r true = retrieve_until b (crlf + 2) >>= λ b'. ok (record {
  success = true;
  has_more = true;
  context = record { state = expect_request_head; request = set_receive_time r time };
  buffer = b';
})

-- A header, or the end of the headers: a line with no colon.
unfoldable pub finish_header : HttpContext → Buffer → List ℕ → ℕ → Pass
finish_header c b line colon =
    if colon == length line
    then record {
      success = true;
      has_more = false;
      context = record c { state = got_all };
      buffer = b;
    }
    else record {
      success = true;
      has_more = true;
      context = record c { request = add_header c.request line colon };
      buffer = b;
    }

-- No line yet.
abbrev pub wait : HttpContext → Buffer → Pass
wait c b = record { success = true; has_more = false; context = c; buffer = b }

-- A pass of the loop in each state.
unfoldable pub request_line_pass : HttpContext → Buffer → ℕ → Result Pass
request_line_pass c b time = find_crlf b >>= elim [
  | none ↦ ok (wait c b)
  | some crlf ↦ line_to b crlf >>= λ line.
      let parsed = process_request_line c.request line in
      finish_request_line c b time crlf parsed.0 parsed.1
]

unfoldable pub request_head_pass : HttpContext → Buffer → Result Pass
request_head_pass c b = find_crlf b >>= elim [
  | none ↦ ok (wait c b)
  | some crlf ↦ line_to b crlf >>= λ line.
      retrieve_until b (crlf + 2) >>= λ b'. ok (finish_header c b' line (find b':' line))
]

-- In the last two states a pass does nothing, and the loop goes on.
unfoldable pub pass_at : ParseState → HttpContext → Buffer → ℕ → Result Pass
pass_at expect_request_line c b time = request_line_pass c b time
pass_at expect_request_head c b time = request_head_pass c b
pass_at _ c b time = ok (record { success = true; has_more = true; context = c; buffer = b })

unfoldable pub pass : HttpContext → Buffer → ℕ → Result Pass
pass c b time = pass_at c.state c b time

abbrev pub Parsed : Type 0
Parsed = Result (Bool × HttpContext × Buffer)

-- The loop's test after a pass.
unfoldable pub after_pass : (HttpContext → Buffer → Parsed) → Pass → Parsed
after_pass go p = elim p.has_more [
  | true ↦ go p.context p.buffer
  | false ↦ ok (p.success, p.context, p.buffer)
]

-- `while(hasMore)`, on fuel.
unfoldable pub parse_loop : ℕ → HttpContext → Buffer → ℕ → Parsed
parse_loop zero c b time = fault out_of_fuel
parse_loop (suc fuel) c b time = pass c b time >>= after_pass (λ c' b'. parse_loop fuel c' b' time)

-- Every pass that goes on takes a line of two bytes at least out of the buffer.
unfoldable pub parse_request : HttpContext → Buffer → ℕ → Parsed
parse_request c b time = parse_loop (readable_bytes b + 1) c b time
