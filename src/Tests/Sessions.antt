-- ===== src/Tests/Sessions.antt =====
-- A session in which the connection is established and then removed.
use tcp_net_library.Base.{◌≡◌, refl, true, List, [], ◌∷◌, replicate, ok}
use tcp_net_library.Http.Text.{codes}
use tcp_net_library.Buffer.{Buffer}
use tcp_net_library.Reactor.Channel.{new_channel}
use tcp_net_library.Net.Connection.{
  TcpConnection, connecting, connected, connect_eestablished, wrote,
}
use tcp_net_library.Net.Connection as Connection
use tcp_net_library.Net.Connection.Lifecycle.{establish, destroy, perform}
use tcp_net_library.Net.Server.{TcpServer, erase, remove_connection_in_loop}
use tcp_net_library.Net.Server as Server
use tcp_net_library.Net.Server.Session.{Session, Steps, stay, after, runs, removes}
use tcp_net_library.Net.Server.Session.Sound.{begins, kept}
use tcp_net_library.Net.Server.Session.Safe.{IsSound, held, steps_safe}

abbrev empty : Buffer
empty = record { buffer = replicate 16 0; read_index = 8; write_index = 8 }

abbrev young : TcpConnection
young = record {
  thread = 2;
  state = connecting;
  channel = new_channel 5;
  input = empty;
  output = empty;
  sent = [];
  has_connection_callback = true;
}

abbrev up : TcpConnection
up = record young { state = connected; channel = record (new_channel 5) { event = 3 } }

abbrev server : TcpServer
server = record {
  thread = 1;
  name = codes "a";
  pool = record {
    base_loop = 1;
    thread = 1;
    started = true;
    num_threads = 1;
    next = 0;
    loops = 2 ∷ [];
  };
  started = true;
  listenning = true;
  next_conn_id = 7;
  connects = (codes "a#6", 3) ∷ [];
  objects = λ p. record { name = codes "a#6"; loop = 2 };
}

abbrev without : TcpServer
without = record server { connects = [] }

abbrev first : Session
first = record { server = server; conn = young; io = establish ∷ [] }

abbrev last : Session
last = record { server = without; conn = up; io = destroy ∷ [] }

first-IsSound : IsSound 3 first
unfolding erase
first-IsSound = record { has = true; due = begins kept; named = held {rest = []} refl tt }

first_to_last : Steps 3 first last
unfolding perform connect_eestablished remove_connection_in_loop erase
first_to_last = after (runs establish (wrote 0) refl refl) (after (removes refl) stay)

steps_safe_example :
    (r : TcpConnection × List Connection.Effect) × (q : TcpServer × List Server.Effect) × (perform 2
        up destroy
      ≡ ok r)
    × (remove_connection_in_loop 1 without 3 ≡ ok q)
    × IsSound 3 last
steps_safe_example = steps_safe destroy [] first_to_last first-IsSound refl (λ u. u)
