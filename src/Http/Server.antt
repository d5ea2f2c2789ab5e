-- ===== src/Http/Server.antt =====
-- http/httpServer.h and httpServer.cpp: what the server does with the bytes of a connection.
-- The user's callback is a parameter; `answers` are what `write` answers, for the refusal and for
-- the response.
pub mod Sending
pub mod Reply
pub mod Setup
use tcp_net_library.Base.{
  ℕ, Bool, true, false, not, ◌&&◌, ◌||◌, List, [], ◌∷◌, ◌++◌, if◌then◌else◌, Result, ok, fault,
  ◌>>=◌,
}
use tcp_net_library.Buffer.{Buffer, init}
use tcp_net_library.Http.Text.{codes, str_eq}
use tcp_net_library.Http.Request.{HttpRequest, Version, http10, get_header}
use tcp_net_library.Http.Context.{HttpContext, got_all?, reset, parse_request}
use tcp_net_library.Http.Response.{
  HttpResponse, not_found404, new_response, set_status_code, set_status_message,
  set_close_connection, append_to_buffer, crlf,
}
use tcp_net_library.Net.Connection.{TcpConnection, Effect, WriteResult, send, send_buffer, shutdown}

abbrev pub HttpCallback : Type 0
HttpCallback = HttpRequest → HttpResponse → HttpResponse

abbrev pub default_http_callback : HttpCallback
default_http_callback req resp =
    set_close_connection
      (set_status_message (set_status_code resp not_found404) (codes "Not Found")) true

abbrev pub Served : Type 0
Served = Result (TcpConnection × List Effect)

-- Where a step ends, the connection may be shut down.
unfoldable pub then_shutdown : ℕ → Bool → TcpConnection → List Effect → Served
then_shutdown caller close conn es =
    if close then (shutdown caller conn >>= λ s. ok (s.0, es ++ s.1)) else ok (conn, es)

abbrev pub is_http10 : Version → Bool
is_http10 http10 = true
is_http10 _ = false

-- Whether the request asks for the connection to be closed.
abbrev pub wants_close : HttpRequest → Bool
wants_close req =
    let connection = get_header req (codes "Connection") in
    str_eq connection (codes "close")
    || is_http10 req.version && not (str_eq connection (codes "Keep-Alive"))

abbrev pub response_to : HttpCallback → HttpRequest → HttpResponse
response_to callback req = callback req (new_response (wants_close req))

unfoldable pub on_request : ℕ → HttpCallback → TcpConnection → HttpRequest → WriteResult → Served
on_request caller callback conn req answer =
    let response = response_to callback req in
    init >>= λ b. append_to_buffer response b >>= λ buf. send_buffer caller conn buf answer >>= λ r.
    then_shutdown caller response.close_connection r.1 r.2

abbrev pub bad_request : List ℕ
bad_request = codes "HTTP/1.1 400 Bad Request" ++ (crlf ++ crlf)

-- The answer to bytes that are no request.
unfoldable pub refuse : ℕ → Bool → TcpConnection → WriteResult → Served
refuse caller success conn answer =
    if success
    then ok (conn, [])
    else (send caller conn bad_request answer >>= λ r. then_shutdown caller true r.0 r.1)

unfoldable pub answer_request :
    ℕ
    → HttpCallback
    → TcpConnection
    → HttpContext
    → List Effect
    → WriteResult
    → Result (TcpConnection × HttpContext × List Effect)
answer_request caller callback conn context es answer =
    if got_all? context
    then (on_request caller callback conn context.request answer >>= λ r.
        ok (r.0, reset context, es ++ r.1))
    else ok (conn, context, es)

-- The context stands in the connection, the bytes in its input buffer.
unfoldable pub on_message :
    ℕ
    → HttpCallback
    → TcpConnection
    → HttpContext
    → ℕ
    → WriteResult × WriteResult
    → Result (TcpConnection × HttpContext × List Effect)
on_message caller callback conn context time answers =
    parse_request context conn.input time >>= λ p.
    refuse caller p.0 (record conn { input = p.2 }) answers.0 >>= λ r.
    answer_request caller callback r.0 p.1 r.1 answers.1
