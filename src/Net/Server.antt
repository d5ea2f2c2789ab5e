-- ===== src/Net/Server.antt =====
-- tcpServer.h and tcpServer.cpp: the connections of a server, by name.
-- A connection is the number of its object; the objects' names and loops stand in `objects`.
pub mod Lifetime
pub mod Names
pub mod Session
pub mod Serving
use tcp_net_library.Base.{
  decimal, ℕ, ◌+◌, Bool, true, false, not, List, [], ◌∷◌, ◌++◌, take, ◌==◌, if◌then◌else◌, Result,
  ok, fault, ◌>>=◌, ◌>>◌,
}
use tcp_net_library.Http.Text.{codes, str_eq}
use tcp_net_library.Http.Map.{str_lt}
use tcp_net_library.Http.Response.{printed}
use tcp_net_library.Reactor.Poller.{assert_in_loop, update_at}
use tcp_net_library.Net.Address.{NetAddress, to_host_port}
use tcp_net_library.Net.Pool.{Pool, get_next_loop}
use tcp_net_library.Net.Pool as Pool

pub record Peer : Type 0 where
  pub name : List ℕ
  pub loop : ℕ

-- `std::map<std::string,TcpConnectionPtr>`
abbrev pub TcpConnectMap : Type 0
TcpConnectMap = List (List ℕ × ℕ)

-- `m[k] = v`
unfoldable pub assign : List ℕ → ℕ → TcpConnectMap → TcpConnectMap
assign k v [] = (k, v) ∷ []
assign k v ((j, w) ∷ m) =
    let rest = assign k v m in
    if str_eq j k then (k, v) ∷ m else if str_lt k j then (k, v) ∷ (j, w) ∷ m else (j, w) ∷ rest

-- `erase`, with the number of elements that went.
unfoldable pub erase : List ℕ → TcpConnectMap → TcpConnectMap × ℕ
erase k [] = ([], 0)
erase k ((j, w) ∷ m) =
    let rest = erase k m in if str_eq j k then (m, 1) else ((j, w) ∷ rest.0, rest.1)

pub record TcpServer : Type 0 where
  pub thread : ℕ
  pub name : List ℕ
  pub pool : Pool
  pub started : Bool
  pub listenning : Bool
  pub next_conn_id : ℕ
  pub connects : TcpConnectMap
  pub objects : ℕ → Peer

pub data Effect : Type 0 where
  runs_listen : Effect
  runs_established : ℕ → ℕ → Effect
  queues_destory : ℕ → ℕ → Effect
  queues_removal : ℕ → Effect

abbrev pub Step : Type 0
Step = Result (TcpServer × List Effect)

-- The constructor; the pool is made for the loop of the server.
abbrev pub new_server : ℕ → ℕ → List ℕ → NetAddress → TcpServer
new_server thread base_loop host addr = record {
  thread = thread;
  name = to_host_port host addr;
  pool = Pool.new_pool base_loop thread;
  started = false;
  listenning = false;
  next_conn_id = 1;
  connects = [];
  objects = λ p. record { name = []; loop = 0 };
}

abbrev pub set_thread_num : TcpServer → ℕ → TcpServer
set_thread_num w n = record w { pool = Pool.set_thread_num w.pool n }

unfoldable pub start_pool : ℕ → (ℕ → ℕ) → TcpServer → Result TcpServer
start_pool caller start_loop w =
    if w.started
    then ok w
    else (Pool.start caller start_loop w.pool >>= λ pool.
        ok (record w { started = true; pool = pool }))

-- `start`; the acceptor is asked to listen, in the loop, where it does not yet.
unfoldable pub start : ℕ → (ℕ → ℕ) → TcpServer → Step
start caller start_loop w =
    start_pool caller start_loop w >>= λ w'. ok (w', if w'.listenning then [] else runs_listen ∷ [])

-- The name of the next connection; `snprintf` writes into 32 bytes.
abbrev pub conn_name : TcpServer → List ℕ
conn_name w = w.name ++ printed (codes "#" ++ decimal w.next_conn_id)

-- A new connection is the object `p`.
unfoldable pub new_connection : ℕ → TcpServer → ℕ → Step
new_connection caller w p =
    assert_in_loop w.thread caller
    >> (get_next_loop caller w.pool >>= λ r. ok (
      record w {
        pool = r.1;
        next_conn_id = w.next_conn_id + 1;
        connects = assign (conn_name w) p w.connects;
        objects = update_at w.objects p (record { name = conn_name w; loop = r.0 });
      },
      runs_established r.0 p ∷ [],
    ))

unfoldable pub remove_connection_in_loop : ℕ → TcpServer → ℕ → Step
remove_connection_in_loop caller w p =
    let erased = erase (w.objects p).name w.connects in
    assert_in_loop w.thread caller
    >> (if erased.1 == 0
        then ok (record w { connects = erased.0 }, [])
        else ok (record w { connects = erased.0 }, queues_destory (w.objects p).loop p ∷ []))

-- From another thread the removal is queued.
unfoldable pub remove_connection : ℕ → TcpServer → ℕ → Step
remove_connection caller w p =
    if w.thread == caller
    then remove_connection_in_loop caller w p
    else ok (w, queues_removal p ∷ [])
