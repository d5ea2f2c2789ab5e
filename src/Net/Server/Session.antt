-- ===== src/Net/Server/Session.antt =====
-- tcpServer.cpp and tcpConnection.cpp together: one connection of a server, from its name in the map
-- to its last functor. The connection's loop has a queue of functors; the server removes the
-- connection in its own loop, whenever and however often it is asked to.
pub mod Sound
pub mod Safe
use tcp_net_library.Base.{ℕ, ◌≡◌, Bool, true, false, List, [], ◌∷◌, ◌++◌, Result, ok}
use tcp_net_library.Net.Connection.{
  State, connecting, connected, disconnecting, disconnected, TcpConnection, WriteResult,
}
use tcp_net_library.Net.Connection as Connection
use tcp_net_library.Net.Connection.Lifecycle.{
  Call, establish, destroy, shut_inloop, send_message_inloop, perform,
}
use tcp_net_library.Net.Connection.Stays.{IsUse}
use tcp_net_library.Net.Server.{
  TcpServer, runs_listen, runs_established, queues_destory, queues_removal,
  remove_connection_in_loop,
}
use tcp_net_library.Net.Server as Server

pub record Session : Type 0 where
  pub server : TcpServer
  pub conn : TcpConnection
  pub io : List Call

-- The functors that a handler queues in the connection's loop; what `write` will answer is `answer`.
abbrev pub queued : WriteResult → List Connection.Effect → List Call
queued answer [] = []
queued answer (Connection.Effect.queues_send xs ∷ es) =
    send_message_inloop xs answer ∷ queued answer es
queued answer (Connection.Effect.queues_shutdown ∷ es) = shut_inloop ∷ queued answer es
queued answer (_ ∷ es) = queued answer es

-- The functors that the server queues there.
abbrev pub destroys : List Server.Effect → List Call
destroys [] = []
destroys (queues_destory loop p ∷ es) = destroy ∷ destroys es
destroys (_ ∷ es) = destroys es

-- One step, of the connection's loop, a user in any thread, or the server's loop.
pub data Step (p : ℕ) : Session → Session → Type 0 where
  calls :
      {s : Session} {d : TcpConnection} {es : List Connection.Effect} (caller : ℕ) (call : Call)
      (answer : WriteResult)
      → IsUse call
      → perform caller s.conn call ≡ ok (d, es)
      → Step p s (record s { conn = d; io = s.io ++ queued answer es })
  runs :
      {s : Session} {d : TcpConnection} {es : List Connection.Effect} {rest : List Call}
      (call : Call) (answer : WriteResult)
      → s.io ≡ call ∷ rest
      → perform s.conn.thread s.conn call ≡ ok (d, es)
      → Step p s (record s { conn = d; io = rest ++ queued answer es })
  removes :
      {s : Session} {w : TcpServer} {es : List Server.Effect}
      → remove_connection_in_loop s.server.thread s.server p ≡ ok (w, es)
      → Step p s (record s { server = w; io = s.io ++ destroys es })

pub data Steps (p : ℕ) : Session → Session → Type 0 where
  stay : {s : Session} → Steps p s s
  after : {s t u : Session} → Step p s t → Steps p t u → Steps p s u
