-- ===== src/Net/Acceptor.antt =====
-- acceptor.h and acceptor.cpp.
pub mod Accepted
use tcp_net_library.Base.{
  ℕ, Bool, true, false, List, [], ◌∷◌, ◌++◌, Option, if◌then◌else◌, ℤ, pos, negsuc, Result, ok,
  fault, ◌>>=◌, ◌>>◌,
}
use tcp_net_library.Reactor.Channel.{Channel, new_channel, set_read_callback, enable_reading}
use tcp_net_library.Reactor.Poller.{assert_in_loop}
use tcp_net_library.Net.Address.{NetAddress, any_address}
use tcp_net_library.Net.Socket.{AcceptAnswer, create_no_block_sock, or_fatal, accept}

pub record Acceptor : Type 0 where
  pub thread : ℕ
  pub accept_sock : ℕ
  pub accept_channel : Channel
  pub has_new_conn_callback : Bool
  pub listenning : Bool

-- What the acceptor asks of the loop, the server and the system.
pub data Effect : Type 0 where
  updates : ℕ → Effect
  new_connection : ℕ → NetAddress → Effect
  closes : ℤ → Effect

-- The constructor: the answers of `socket` and `bind` are arguments.
unfoldable pub new_acceptor : ℕ → Option ℕ → Bool → Result Acceptor
new_acceptor thread sock bound = do
  fd ← create_no_block_sock sock
  or_fatal bound
  ok (record {
    thread = thread;
    accept_sock = fd;
    accept_channel = set_read_callback (new_channel fd) true;
    has_new_conn_callback = false;
    listenning = false;
  })

abbrev pub set_new_connect_callback : Acceptor → Bool → Acceptor
set_new_connect_callback a cb = record a { has_new_conn_callback = cb }

unfoldable pub listen : ℕ → Acceptor → Bool → Result (Acceptor × List Effect)
listen caller a listens = do
  assert_in_loop a.thread caller
  or_fatal listens
  let channel = enable_reading a.accept_channel
  ok (record a { listenning = true; accept_channel = channel }, updates channel.event ∷ [])

abbrev pub hand_over : Acceptor → ℤ × NetAddress → List Effect
hand_over a (negsuc n, addr) = closes (negsuc n) ∷ []
hand_over a (pos connfd, addr) =
    if a.has_new_conn_callback then new_connection connfd addr ∷ [] else []

unfoldable pub handle_read : ℕ → Acceptor → AcceptAnswer → Result (List Effect)
handle_read caller a answer =
    assert_in_loop a.thread caller >> (accept answer (any_address 0) >>= λ r. ok (hand_over a r))
