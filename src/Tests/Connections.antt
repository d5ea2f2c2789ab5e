-- ===== src/Tests/Connections.antt =====
-- The connection's theorems at a connection with waiting bytes.
use tcp_net_library.Base.{◌≡◌, refl, true, List, [], ◌∷◌, ◌++◌, arith, replicate, ok}
use tcp_net_library.Buffer.{Buffer}
use tcp_net_library.Buffer.Invariant as Inv
use tcp_net_library.Reactor.Channel.{new_channel}
use tcp_net_library.Reactor.Channel.Events.{both}
use tcp_net_library.Net.Connection.{
  TcpConnection, Effect, connected, wrote, send_inloop, handle_write,
}
use tcp_net_library.Net.Connection.Stream.{IsValid, Extends, send_inloop_ok}
use tcp_net_library.Net.Connection.Drain.{Drained, handle_write_ok}

abbrev waiting : Buffer
waiting = record { buffer = replicate 8 0 ++ 1 ∷ 2 ∷ 3 ∷ 0 ∷ []; read_index = 8; write_index = 11 }

waiting-IsValid : Inv.IsValid waiting
waiting-IsValid = omega arith

-- The last three bytes sent wait, and the channel watches for writing.
abbrev busy : TcpConnection
busy = record {
  thread = 1;
  state = connected;
  channel = record (new_channel 5) { event = 7 };
  input = waiting;
  output = waiting;
  sent = 9 ∷ [];
  has_connection_callback = true;
}

busy-IsValid : IsValid busy
busy-IsValid = record { output = waiting-IsValid; events = both; armed = refl }

send_inloop_ok_example :
    (d : TcpConnection) × (es : List Effect) × (send_inloop 1 busy (4 ∷ 5 ∷ []) (wrote 1)
      ≡ ok (d, es))
    × Extends busy (4 ∷ 5 ∷ []) d
send_inloop_ok_example =
    send_inloop_ok (4 ∷ 5 ∷ []) (wrote 1) busy-IsValid (omega arith) (omega arith)

handle_write_ok_example :
    (d : TcpConnection) × (es : List Effect) × (handle_write 1 busy (wrote 2) ≡ ok (d, es))
    × Drained busy 2 d
handle_write_ok_example = handle_write_ok (wrote 2) busy-IsValid (omega arith)
