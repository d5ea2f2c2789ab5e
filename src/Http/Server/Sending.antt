-- ===== src/Http/Server/Sending.antt =====
-- http/httpServer.cpp: its calls of `send` and `shutdown` on a connected connection.
use tcp_net_library.Base.{
  ℕ, ◌+◌, ◌-◌, ◌≤◌, ◌≡◌, refl, ap, sym, ◌∙◌, Bool, true, false, List, [], ◌∷◌, ◌++◌, arith, length,
  ok, ==_refl, if◌then◌else◌, append-nil,
}
use tcp_net_library.Buffer.{
  Buffer, max_size, cheap_prepared, slice, peek, readable_bytes, retrieve_all,
}
use tcp_net_library.Buffer.Memory.{slice_ok}
use tcp_net_library.Buffer.Invariant.{contents, readable}
use tcp_net_library.Buffer.Invariant as Inv
use tcp_net_library.Http.Server.{then_shutdown}
use tcp_net_library.Net.Connection.{
  TcpConnection, Effect, WriteResult, taken, connected, disconnecting, is_connected,
  shuts_down_write, send, send_inloop, send_buffer, shutdown, shutdown_inloop,
}
use tcp_net_library.Reactor.Channel.{is_writing}
use tcp_net_library.Net.Connection.Stream.{IsValid, stream, Extends, send_inloop_ok}

-- The answer `text` has joined the stream; the connection closes, or stays as it is.
pub record Replied (c : TcpConnection) (text : List ℕ) (close : Bool) (d : TcpConnection)
    : Type 0 where
  pub valid : IsValid d
  pub bytes : stream d ≡ stream c ++ text
  pub state : d.state ≡ (if close then disconnecting else connected)
  pub same_thread : d.thread ≡ c.thread
  pub same_input : d.input ≡ c.input

slice-contents :
    {b : Buffer} → Inv.IsValid b → slice b.buffer (peek b) (readable_bytes b) ≡ ok (contents b)
slice-contents {b} v = rw (
  readable v,
  slice_ok b.buffer b.read_index (b.write_index - b.read_index) (omega (arith, v.order, v.fits)),
)

send_connected :
    (c : TcpConnection) (message : List ℕ) (answer : WriteResult)
    → c.state ≡ connected
    → send c.thread c message answer ≡ send_inloop c.thread c message answer
unfolding send
send_connected c message answer s =
    let go = send_inloop c.thread c message answer in
    rw (==_refl c.thread) (ap (λ t. if is_connected t then go else ok (c, [])) s)

abbrev closing : TcpConnection → TcpConnection
closing c = record c { state = disconnecting }

abbrev last_effects : TcpConnection → List Effect
last_effects c = if is_writing c.channel then [] else shuts_down_write ∷ []

shutdown_connected :
    (c : TcpConnection) → c.state ≡ connected → shutdown c.thread c ≡ ok (closing c, last_effects c)
unfolding shutdown shutdown_inloop
shutdown_connected c s =
    rw (==_refl c.thread)
      (ap (λ t. if is_connected t then ok (closing c, last_effects c) else ok (c, [])) s)

pub sent_ok :
    {c : TcpConnection} (message : List ℕ) (answer : WriteResult)
    → IsValid c
    → c.state ≡ connected
    → taken answer ≤ length message
    → length c.output.buffer + length message + cheap_prepared ≤ max_size
    → (d : TcpConnection) × (es : List Effect) × (send c.thread c message answer ≡ ok (d, es))
      × Extends c message d
sent_ok {c} message answer v s t l =
    let (d, es, p, x) = send_inloop_ok message answer v t l in
    (d, es, send_connected c message answer s ∙ p, x)

pub send_buffer_ok :
    {c : TcpConnection} {b : Buffer} (text : List ℕ) (answer : WriteResult)
    → IsValid c
    → Inv.IsValid b
    → contents b ≡ text
    → c.state ≡ connected
    → taken answer ≤ length text
    → length c.output.buffer + length text + cheap_prepared ≤ max_size
    → (d : TcpConnection) × (es : List Effect) × (send_buffer c.thread c b answer
        ≡ ok (retrieve_all b, d, es))
      × Extends c text d
unfolding send_buffer
send_buffer_ok text answer v w h s t l =
    let (d, es, p, x) = sent_ok text answer v s t l in (d, es, rw (slice-contents w, h, p), x)

pub then_shutdown_ok :
    {c : TcpConnection} (caller : ℕ) (close : Bool) (es : List Effect)
    → caller ≡ c.thread
    → IsValid c
    → c.state ≡ connected
    → (d : TcpConnection) × (es' : List Effect) × (then_shutdown caller close c es ≡ ok (d, es'))
      × Replied c [] close d
unfolding then_shutdown
then_shutdown_ok {c} caller false es h v s = (
  c,
  es,
  refl,
  record {
    valid = v;
    bytes = sym (append-nil (stream c));
    state = s;
    same_thread = refl;
    same_input = refl;
  },
)
then_shutdown_ok {c} caller true es h v s = (
  closing c,
  es ++ last_effects c,
  rw (h, shutdown_connected c s),
  record {
    valid = record { output = v.output; events = v.events; armed = v.armed };
    bytes = sym (append-nil (stream c));
    state = refl;
    same_thread = refl;
    same_input = refl;
  },
)
