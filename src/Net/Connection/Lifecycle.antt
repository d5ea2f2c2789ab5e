-- ===== src/Net/Connection/Lifecycle.antt =====
-- tcpConnection.cpp: the order of a connection's states, and what its user is told.
use tcp_net_library.Base.{ℕ, ◌+◌, ◌≤◌, ◌≡◌, List, [], ◌∷◌, ◌++◌, arith, ok, ◌>>=◌}
use tcp_net_library.Buffer.{ReadResult}
use tcp_net_library.Net.Connection.{
  State, connecting, connected, disconnecting, disconnected, TcpConnection, Effect,
  connection_callback, Step, WriteResult, connect_eestablished, connect_destory, handle_close,
  handle_read, shutdown_inloop, written_out, after_write, handle_write, keep_rest, send_inloop,
  send, shutdown,
}

-- The calls that a loop, a user or another thread makes.
pub data Call : Type 0 where
  establish destroy close shut shut_inloop : Call
  read : ReadResult → Call
  write : WriteResult → Call
  send_message : List ℕ → WriteResult → Call
  send_message_inloop : List ℕ → WriteResult → Call

unfoldable pub perform : ℕ → TcpConnection → Call → Step
perform caller c establish = connect_eestablished caller c
perform caller c destroy = connect_destory caller c
perform caller c close = handle_close caller c
perform caller c shut = shutdown caller c
perform caller c shut_inloop = shutdown_inloop caller c
perform caller c (read r) = handle_read caller c r
perform caller c (write a) = handle_write caller c a
perform caller c (send_message xs a) = send caller c xs a
perform caller c (send_message_inloop xs a) = send_inloop caller c xs a

abbrev pub is_up : Effect → ℕ
is_up (connection_callback connected) = 1
is_up _ = 0

abbrev pub is_down : Effect → ℕ
is_down (connection_callback disconnected) = 1
is_down _ = 0

-- How often the user was told that the connection is up, and that it is down.
abbrev pub ups : List Effect → ℕ
ups [] = 0
ups (e ∷ es) = is_up e + ups es

abbrev pub downs : List Effect → ℕ
downs [] = 0
downs (e ∷ es) = is_down e + downs es

abbrev pub has_been_up : State → ℕ
has_been_up connecting = 0
has_been_up _ = 1

abbrev pub is_over : State → ℕ
is_over disconnected = 1
is_over _ = 0

abbrev pub rank : State → ℕ
rank connecting = 0
rank connected = 1
rank disconnecting = 2
rank disconnected = 3

-- One call moves the state forward, and tells the user exactly of what has changed.
pub record Moves (c d : TcpConnection) (es : List Effect) : Type 0 where
  pub forward : rank c.state ≤ rank d.state
  pub told_up : has_been_up c.state + ups es ≡ has_been_up d.state
  pub told_down : is_over c.state + downs es ≡ is_over d.state
  pub same_callback : d.has_connection_callback ≡ c.has_connection_callback

keep_rest-Moves :
    (c d : TcpConnection) (es : List Effect) (rest : List ℕ)
    → keep_rest c rest ≡ ok (d, es)
    → Moves c d es
unfolding keep_rest
keep_rest-Moves c d es rest h = ground arith

written_out-Moves :
    (caller : ℕ) (c d : TcpConnection) (es : List Effect)
    → written_out caller c ≡ ok (d, es)
    → Moves c d es
unfolding written_out shutdown_inloop
written_out-Moves caller c d es h = ground arith

after_write-Moves :
    (caller : ℕ) (c d : TcpConnection) (pending : List ℕ) (n : ℕ) (es : List Effect)
    → after_write caller c pending n ≡ ok (d, es)
    → Moves c d es
unfolding after_write written_out shutdown_inloop
after_write-Moves caller c d pending n es h = ground arith

-- Calls by any threads, in turn, with all their effects.
unfoldable pub perform_all : TcpConnection → List (ℕ × Call) → Step
perform_all c [] = ok (c, [])
perform_all c ((caller, call) ∷ calls) =
    perform caller c call >>= λ r. perform_all r.0 calls >>= λ s. ok (s.0, r.1 ++ s.1)
