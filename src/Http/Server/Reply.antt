-- ===== src/Http/Server/Reply.antt =====
-- http/httpServer.cpp: `onMessage` and `onRequest`.
use tcp_net_library.Base.{
  ℕ, ◌+◌, ◌≤◌, ◌≡◌, ap, sym, ◌∙◌, true, false, List, ◌++◌, arith, length, ok, if◌then◌else◌, some,
  append-nil,
}
use tcp_net_library.Buffer.{max_size, cheap_prepared}
use tcp_net_library.Buffer.Invariant.{contents, readable}
use tcp_net_library.Buffer.Invariant as Inv
use tcp_net_library.Buffer.Trace.{init_ok}
use tcp_net_library.Http.Request.{HttpRequest, swap}
use tcp_net_library.Http.Context.{HttpContext, got_all, got_all?, reset, new_context}
use tcp_net_library.Http.Context.Spec.{IsWaiting, parse}
use tcp_net_library.Http.Context.Total.{parsed}
use tcp_net_library.Http.Context.Stream.{parse-refused, waiting-got_all?}
use tcp_net_library.Http.Response.Written.{response_text, append_to_buffer_ok}
use tcp_net_library.Http.Server.{
  HttpCallback, response_to, on_request, bad_request, refuse, answer_request, on_message,
}
use tcp_net_library.Net.Connection.{
  TcpConnection, Effect, WriteResult, taken, connected, disconnecting,
}
use tcp_net_library.Net.Connection.Stream.{IsValid, stream}
use tcp_net_library.Http.Server.Sending.{Replied, sent_ok, send_buffer_ok, then_shutdown_ok}

-- The response fits the two buffers.
pub record Fits (c : TcpConnection) (text : List ℕ) : Type 0 where
  pub response : length text + 1040 ≤ max_size
  pub output : length c.output.buffer + length text + cheap_prepared ≤ max_size

on_request_ok :
    {c : TcpConnection} (callback : HttpCallback) (req : HttpRequest) (answer : WriteResult)
    → IsValid c
    → c.state ≡ connected
    → Fits c (response_text (response_to callback req))
    → taken answer ≤ length (response_text (response_to callback req))
    → (d : TcpConnection) × (es : List Effect) × (on_request c.thread callback c req answer
        ≡ ok (d, es))
      × Replied c
          (response_text (response_to callback req))
          (response_to callback req).close_connection
          d
unfolding on_request
on_request_ok {c} callback req answer v s f t =
    let r = response_to callback req in
    let (b, i, w, e, l) = init_ok in
    let (buf, p, h) = append_to_buffer_ok r w (omega (arith, f.response)) in
    let text : contents buf ≡ response_text r = h.bytes ∙ ap (λ k. k ++ response_text r) e in
    let (d, es, q, x) = send_buffer_ok (response_text r) answer v h.valid text s t f.output in
    let (d', es', g, y) =
      then_shutdown_ok c.thread r.close_connection es (sym x.same_thread) x.valid
        (x.same_state ∙ s) in
    (
      d',
      es',
      rw (i, p, q) g,
      record {
        valid = y.valid;
        bytes = y.bytes ∙ append-nil (stream d) ∙ x.bytes;
        state = y.state;
        same_thread = y.same_thread ∙ x.same_thread;
        same_input = y.same_input ∙ x.same_input;
      },
    )

-- `onMessage` on a connected connection whose input holds the rest of a request: it never fails
-- while the sizes stay below the largest vector; the text of the callback's response, and nothing
-- else, joins the stream of the connection; the bytes behind the request stay in the input buffer;
-- the parser is reset; and the connection starts to close exactly where the response says so.
pub on_message_ok :
    {c : TcpConnection} (callback : HttpCallback) (context got : HttpContext) (time : ℕ)
    (rest : List ℕ) (answers : WriteResult × WriteResult)
    → IsWaiting context
    → Inv.IsValid c.input
    → IsValid c
    → c.state ≡ connected
    → parse context (contents c.input) time ≡ some (true, got, rest)
    → got.state ≡ got_all
    → Fits c (response_text (response_to callback got.request))
    → taken answers.1 ≤ length (response_text (response_to callback got.request))
    → (d : TcpConnection) × (es : List Effect) × (on_message c.thread callback c context time
          answers
        ≡ ok (d, new_context, es))
      × (stream d ≡ stream c ++ response_text (response_to callback got.request))
      × (contents d.input ≡ rest)
      × (d.state ≡ (
          if (response_to callback got.request).close_connection then disconnecting else connected))
unfolding on_message refuse answer_request reset swap
on_message_ok {c} callback context got time rest answers w i v s e g f t =
    let (left, p, j, h) = parsed context got c.input time true rest w i e in
    let conn : TcpConnection = record c { input = left } in
    let valid : IsValid conn = record { output = v.output; events = v.events; armed = v.armed } in
    let fits : Fits conn (response_text (response_to callback got.request)) = record {
      response = f.response;
      output = f.output;
    } in
    let (d, es, q, x) = on_request_ok {c = conn} callback got.request answers.1 valid s fits t in
    (d, es, rw (p, g, q), x.bytes, ap contents x.same_input ∙ h, x.state)

-- `onMessage` on a connected connection, on bytes that the parser refuses: while the sizes stay below
-- the largest vector it never fails, the refusal and nothing else joins the stream of the connection,
-- and the connection starts to close. The callback is not asked: the refused parser never has the
-- whole request.
pub on_message_bad :
    {c : TcpConnection} (callback : HttpCallback) (context got : HttpContext) (time : ℕ)
    (rest : List ℕ) (answers : WriteResult × WriteResult)
    → IsWaiting context
    → Inv.IsValid c.input
    → IsValid c
    → c.state ≡ connected
    → parse context (contents c.input) time ≡ some (false, got, rest)
    → length c.output.buffer + length bad_request + cheap_prepared ≤ max_size
    → taken answers.0 ≤ length bad_request
    → (d : TcpConnection) × (es : List Effect) × (on_message c.thread callback c context time
          answers
        ≡ ok (d, got, es))
      × (stream d ≡ stream c ++ bad_request)
      × (d.state ≡ disconnecting)
unfolding on_message refuse answer_request
on_message_bad {c} callback context got time rest answers w i v s e f t =
    let g : got_all? got ≡ false =
      waiting-got_all? got (parse-refused context got (contents c.input) rest time w e) in
    let (left, p, j, h) = parsed context got c.input time false rest w i e in
    let conn : TcpConnection = record c { input = left } in
    let valid : IsValid conn = record { output = v.output; events = v.events; armed = v.armed } in
    let (d, es, q, x) = sent_ok {c = conn} bad_request answers.0 valid s t f in
    let (d', es', k, y) =
      then_shutdown_ok c.thread true es (sym x.same_thread) x.valid (x.same_state ∙ s) in
    (d', es', rw (p, q, k, g), y.bytes ∙ append-nil (stream d) ∙ x.bytes, y.state)
