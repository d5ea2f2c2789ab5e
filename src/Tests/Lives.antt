-- ===== src/Tests/Lives.antt =====
-- The connection's theorems over whole runs.
use tcp_net_library.Base.{ℕ, true, List, [], ◌∷◌, replicate}
use tcp_net_library.Buffer.{Buffer}
use tcp_net_library.Reactor.Channel.{new_channel}
use tcp_net_library.Net.Connection.{
  TcpConnection, Effect, updates, removes_channel, connection_callback, close_callback, connecting,
  connected, disconnected,
}
use tcp_net_library.Net.Connection.Lifecycle.{Call, establish, destroy, close, shut}

abbrev empty : Buffer
empty = record { buffer = replicate 16 0; read_index = 8; write_index = 8 }

abbrev young : TcpConnection
young = record {
  thread = 1;
  state = connecting;
  channel = new_channel 5;
  input = empty;
  output = empty;
  sent = [];
  has_connection_callback = true;
}

abbrev life : List (ℕ × Call)
life = (1, establish) ∷ (2, shut) ∷ (1, close) ∷ (1, destroy) ∷ []

abbrev over : TcpConnection
over = record young { state = disconnected }

abbrev told : List Effect
told =
    updates 3
    ∷ connection_callback connected
    ∷ Effect.queues_shutdown
    ∷ updates 0
    ∷ close_callback
    ∷ updates 0
    ∷ connection_callback disconnected
    ∷ removes_channel
    ∷ []
