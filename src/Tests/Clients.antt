-- ===== src/Tests/Clients.antt =====
-- The theorems on the connector, the pool and the server at concrete ones.
use tcp_net_library.Base.{
  negsuc, ◌+◌, ◌>>=◌, length, ◌≡◌, refl, true, false, List, [], ◌∷◌, arith, some, ok,
}
use tcp_net_library.Net.Connector.{
  Connector, Effect, connecting, new_connector, attempt_channel, handle_write,
}
use tcp_net_library.Net.Connector.Backoff.{retries, delay, backoff, retries_lem}
use tcp_net_library.Net.Connector.Attempt.{Settled, handle_write_settles}
use tcp_net_library.Http.Text.{codes}
use tcp_net_library.Net.Server.{TcpServer, new_connection}
use tcp_net_library.Net.Server.{runs_established, erase, conn_name}
use tcp_net_library.Net.Server as Server
use tcp_net_library.Net.Server.{new_server}
use tcp_net_library.Net.Server.Names.{established, destroyed}
use tcp_net_library.Net.Server.Serving.{arrives, leaves, serve, start-serve_ok}
use tcp_net_library.Net.Address.{any_address}
use tcp_net_library.Reactor.Channel.{new_channel}
use tcp_net_library.Net.Socket.{accepted, accept_failed}
use tcp_net_library.Net.Acceptor.{Acceptor}
use tcp_net_library.Net.Acceptor as Acceptance
use tcp_net_library.Net.Acceptor.Accepted.{read_all, handed, given, read_all_ok}

abbrev wanted : Connector
wanted = record (new_connector 1) { connect = true }

abbrev under_way : Connector
under_way = record wanted { status = connecting; channel = some (attempt_channel 5) }

retries_lem_example :
    retries 8 wanted 5 ≡ ok (record wanted { retry_delay_ms = delay 8 }, backoff 5 0 8)
retries_lem_example = retries_lem 8 0 wanted 5 refl refl refl

handle_write_settles_example :
    (d : Connector) × (es : List Effect) × (handle_write under_way 111 false ≡ ok (d, es))
    × Settled 5 d es
handle_write_settles_example =
    handle_write_settles under_way (attempt_channel 5) 111 false refl refl

abbrev acceptor : Acceptor
acceptor = record {
  thread = 1;
  accept_sock = 5;
  accept_channel = new_channel 5;
  has_new_conn_callback = true;
  listenning = true;
}

read_all_ok_example :
    (read_all acceptor (accepted 8 (any_address 80) ∷ accept_failed 4 ∷ [])
      ≡ ok (Acceptance.new_connection 8 (any_address 80) ∷ Acceptance.closes (negsuc 0) ∷ []))
    × (handed (given (accepted 8 (any_address 80) ∷ accept_failed 4 ∷ []))
        ≡ (8, any_address 80) ∷ [])
read_all_ok_example = read_all_ok acceptor (accepted 8 (any_address 80) ∷ accept_failed 4 ∷ []) refl

start-serve_ok_example :
    (w : TcpServer) × (out : List Server.Effect) × ((Server.start 1
          (λ i. i + 10)
          (Server.set_thread_num (new_server 1 0 (codes "10.0.0.1") (any_address 80)) 2)
        >>= λ r. serve (arrives 3 ∷ arrives 4 ∷ leaves 3 ∷ []) r.0)
      ≡ ok (w, out))
    × (length w.connects + destroyed out ≡ established out)
start-serve_ok_example =
    start-serve_ok 1 0 2 (codes "10.0.0.1") (any_address 80) (λ i. i + 10)
      (arrives 3 ∷ arrives 4 ∷ leaves 3 ∷ []) (omega arith)
