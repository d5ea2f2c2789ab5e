-- ===== src/Http/Server/Setup.antt =====
-- http/httpServer.cpp: the server before and at its start. Its connections have `on_message` for
-- their messages, and a callback that does nothing for their state.
use tcp_net_library.Base.{ℕ, List, Result, ok, ◌>>=◌}
use tcp_net_library.Http.Server.{HttpCallback, default_http_callback}
use tcp_net_library.Net.Address.{NetAddress}
use tcp_net_library.Net.Server.{TcpServer, Effect, new_server}
use tcp_net_library.Net.Server as Server

pub record HttpServer : Type 0 where
  pub server : TcpServer
  pub http_callback : HttpCallback

abbrev pub new_http_server : ℕ → ℕ → List ℕ → NetAddress → HttpServer
new_http_server thread base_loop host listen_addr = record {
  server = new_server thread base_loop host listen_addr;
  http_callback = default_http_callback;
}

abbrev pub set_http_callback : HttpServer → HttpCallback → HttpServer
set_http_callback w cb = record w { http_callback = cb }

abbrev pub set_server_threads : HttpServer → ℕ → HttpServer
set_server_threads w num_threads = record w { server = Server.set_thread_num w.server num_threads }

unfoldable pub start_http : ℕ → (ℕ → ℕ) → HttpServer → Result (HttpServer × List Effect)
start_http caller start_loop w =
    Server.start caller start_loop w.server >>= λ r. ok (record w { server = r.0 }, r.1)
