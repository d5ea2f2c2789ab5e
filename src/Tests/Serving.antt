-- ===== src/Tests/Serving.antt =====
-- The server's theorems at small requests.
use tcp_net_library.Base.{
  decimal_from, ℕ, ◌+◌, ◌≡◌, refl, true, List, [], ◌∷◌, ◌++◌, arith, replicate, length, ok, inl,
  if◌then◌else◌,
}
use tcp_net_library.Buffer.{Buffer}
use tcp_net_library.Buffer.Invariant.{contents}
use tcp_net_library.Reactor.Channel.{new_channel}
use tcp_net_library.Reactor.Channel.Events.{reading}
use tcp_net_library.Http.Text.{codes, find}
use tcp_net_library.Http.Request.{get, http11, empty_request, set_method, method_of}
use tcp_net_library.Http.Context.{
  HttpContext, got_all, new_context, process_request_line, after_method, set_protocol, set_target,
}
use tcp_net_library.Http.Context.Spec.{
  parse_lines, after_split, split_line, after_line, on_line, on_request_line, request_verdict,
  on_header, parse,
}
use tcp_net_library.Http.Response.Written.{response_text}
use tcp_net_library.Http.Server.{default_http_callback, response_to, bad_request, on_message}
use tcp_net_library.Http.Server.Reply.{on_message_ok, on_message_bad}
use tcp_net_library.Net.Connection.{TcpConnection, Effect, connected, disconnecting, wrote}
use tcp_net_library.Net.Connection.Stream.{stream}

abbrev filled : List ℕ → Buffer
filled text = record {
  buffer = replicate 8 0 ++ text;
  read_index = 8;
  write_index = 8 + length text;
}

abbrev crlf : List ℕ
crlf = 13 ∷ 10 ∷ []

abbrev request : List ℕ
request = codes "GET / HTTP/1.1" ++ (crlf ++ (crlf ++ codes "GET"))

abbrev garbage : List ℕ
garbage = codes "GET / HTTP/2.0" ++ crlf

abbrev holding : List ℕ → TcpConnection
holding text = record {
  thread = 1;
  state = connected;
  channel = record (new_channel 5) { event = 3 };
  input = filled text;
  output = filled [];
  sent = [];
  has_connection_callback = true;
}

abbrev got : HttpContext
got = record {
  state = got_all;
  request = record empty_request {
    method = get;
    version = http11;
    path = codes "/";
    receive_time = 7;
  };
}

abbrev refused : HttpContext
refused = record new_context { request = record empty_request { method = get; path = codes "/" } }

on_message_ok_example :
    (d : TcpConnection) × (es : List Effect) × (on_message 1 default_http_callback
        (holding request)
        new_context
        7
        (wrote 0, wrote 5)
      ≡ ok (d, new_context, es))
    × (stream d
        ≡ stream (holding request) ++ response_text (response_to default_http_callback got.request))
    × (contents d.input ≡ codes "GET")
    × (d.state ≡ (
        if (response_to default_http_callback got.request).close_connection
        then disconnecting
        else connected))
unfolding parse parse_lines after_split split_line after_line on_line on_request_line
    request_verdict on_header process_request_line find set_method method_of after_method
    set_protocol set_target decimal_from
on_message_ok_example =
    on_message_ok default_http_callback new_context got 7 (codes "GET") (wrote 0, wrote 5)
      (inl refl) (omega arith) (record { output = omega arith; events = reading; armed = refl })
      refl refl refl (omega arith) (omega arith)

on_message_bad_example :
    (d : TcpConnection) × (es : List Effect) × (on_message 1 default_http_callback
        (holding garbage)
        new_context
        7
        (wrote 3, wrote 0)
      ≡ ok (d, refused, es))
    × (stream d ≡ stream (holding garbage) ++ bad_request)
    × (d.state ≡ disconnecting)
unfolding parse parse_lines after_split split_line after_line on_line on_request_line
    request_verdict process_request_line find set_method method_of after_method set_protocol
    set_target
on_message_bad_example =
    on_message_bad default_http_callback new_context refused 7 garbage (wrote 3, wrote 0) (inl refl)
      (omega arith) (record { output = omega arith; events = reading; armed = refl }) refl refl
      (omega arith) (omega arith)
