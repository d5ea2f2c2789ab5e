-- ===== src/Net/Connector.antt =====
-- connector.h and connector.cpp: the client's side of a connection attempt, with its retries.
-- A step takes the answers of its system calls and returns the connector with what it asks of
-- others, in order. Delays are milliseconds.
pub mod Backoff
pub mod Attempt
use tcp_net_library.Base.{
  ℕ, ◌+◌, ◌*◌, ◌<◌, Bool, true, false, not, ◌||◌, List, [], ◌∷◌, ◌++◌, Option, none, some, ltb,
  ◌==◌, if◌then◌else◌, Result, ok, fault, assert, ◌>>=◌, ◌>>◌,
}
use tcp_net_library.Reactor.Channel.{Channel, new_channel, enable_writing, disable_all}
use tcp_net_library.Reactor.Poller.{assert_in_loop, is_none, or_fault}

pub data Status : Type 0 where
  disconnect connecting connected : Status

abbrev pub is_disconnect : Status → Bool
is_disconnect disconnect = true
is_disconnect _ = false

-- What `connect` answers: success, or the error that the code names.
pub data ConnectError : Type 0 where
  success einprogress eintr eisconn : ConnectError
  eagain eaddrinuse eaddrnotavail econnrefused enetunreach : ConnectError
  eacces eperm eafnosupport ealready ebadf efault enotsock : ConnectError
  unexpected : ConnectError

pub record Connector : Type 0 where
  pub thread : ℕ
  pub connect : Bool
  pub status : Status
  pub channel : Option Channel
  pub retry_delay_ms : ℕ

pub data Effect : Type 0 where
  queues_start : Effect
  starts_after : ℕ → Effect
  updates : ℕ → ℕ → Effect
  removes_channel : ℕ → Effect
  queues_reset : Effect
  closes : ℕ → Effect
  new_connection : ℕ → Effect

abbrev pub Step : Type 0
Step = Result (Connector × List Effect)

abbrev pub max_retry_delay : ℕ
max_retry_delay = 30 * 1000

abbrev pub init_retry_delay : ℕ
init_retry_delay = 500

-- `std::min`
abbrev pub min : ℕ → ℕ → ℕ
min a b = if ltb b a then b else a

abbrev pub new_connector : ℕ → Connector
new_connector thread = record {
  thread = thread;
  connect = false;
  status = disconnect;
  channel = none;
  retry_delay_ms = init_retry_delay;
}

unfoldable pub retry : Connector → ℕ → Step
retry c sockfd =
    if c.connect
    then ok (
      record c { status = disconnect; retry_delay_ms = min (c.retry_delay_ms * 2) max_retry_delay },
      closes sockfd ∷ starts_after c.retry_delay_ms ∷ [],
    )
    else ok (record c { status = disconnect }, closes sockfd ∷ [])

abbrev pub attempt_channel : ℕ → Channel
attempt_channel sockfd = record (enable_writing (new_channel sockfd)) {
  has_write = true;
  has_error = true;
}

-- `connecting(sockfd)`
unfoldable pub set_connecting : Connector → ℕ → Step
set_connecting c sockfd =
    assert (is_none c.channel)
    >> ok (
      record c { status = connecting; channel = some (attempt_channel sockfd) },
      updates sockfd (attempt_channel sockfd).event ∷ [],
    )

-- `connect()`: the new socket, and the answer of the call on it.
unfoldable pub connect_with : Connector → ℕ → ConnectError → Step
connect_with c fd success = set_connecting c fd
connect_with c fd einprogress = set_connecting c fd
connect_with c fd eintr = set_connecting c fd
connect_with c fd eisconn = set_connecting c fd
connect_with c fd eagain = retry c fd
connect_with c fd eaddrinuse = retry c fd
connect_with c fd eaddrnotavail = retry c fd
connect_with c fd econnrefused = retry c fd
connect_with c fd enetunreach = retry c fd
connect_with c fd eacces = ok (c, closes fd ∷ [])
connect_with c fd eperm = ok (c, closes fd ∷ [])
connect_with c fd eafnosupport = ok (c, closes fd ∷ [])
connect_with c fd ealready = ok (c, closes fd ∷ [])
connect_with c fd ebadf = ok (c, closes fd ∷ [])
connect_with c fd efault = ok (c, closes fd ∷ [])
connect_with c fd enotsock = ok (c, closes fd ∷ [])
connect_with c fd unexpected = ok (c, closes fd ∷ [])

unfoldable pub start_inloop : ℕ → Connector → ℕ → ConnectError → Step
start_inloop caller c fd err =
    assert_in_loop c.thread caller
    >> (assert (is_disconnect c.status)
        >> (if c.connect then connect_with c fd err else ok (c, [])))

-- From another thread the attempt is queued for the loop.
unfoldable pub start : ℕ → Connector → ℕ → ConnectError → Step
start caller c fd err =
    let c' = record c { connect = true } in
    if c.thread == caller then start_inloop caller c' fd err else ok (c', queues_start ∷ [])

unfoldable pub restart : ℕ → Connector → ℕ → ConnectError → Step
restart caller c fd err =
    assert_in_loop c.thread caller
    >> start_inloop caller
        (record c { status = disconnect; retry_delay_ms = init_retry_delay; connect = true }) fd err

unfoldable pub stop : Connector → Connector
stop c = record c { connect = false }

unfoldable pub reset_channel : Connector → Connector
reset_channel c = record c { channel = none }

-- The descriptor, and the connector whose channel is off; the channel itself goes later.
unfoldable pub remove_and_reset_channel : Connector → Result (ℕ × Connector × List Effect)
remove_and_reset_channel c = or_fault c.channel >>= λ channel. ok (
  channel.fd,
  record c { channel = some (disable_all channel) },
  updates channel.fd (disable_all channel).event ∷ removes_channel channel.fd ∷ queues_reset ∷ [],
)

-- The end of `handleWrite`: the socket's error, and whether it is connected to itself.
unfoldable pub finish_attempt : Connector → ℕ → ℕ → Bool → Step
finish_attempt c sockfd err is_self =
    if not (err == 0) || is_self
    then retry c sockfd
    else ok (
      record c { status = connected },
      if c.connect then new_connection sockfd ∷ [] else closes sockfd ∷ [],
    )

unfoldable pub write_in : Status → Connector → ℕ → Bool → Step
write_in connecting c err is_self = remove_and_reset_channel c >>= λ r.
    finish_attempt r.1 r.0 err is_self >>= λ s. ok (s.0, r.2 ++ s.1)
write_in _ c err is_self = ok (c, [])

unfoldable pub handle_write : Connector → ℕ → Bool → Step
handle_write c err is_self = write_in c.status c err is_self

unfoldable pub handle_error : Connector → Step
handle_error c = remove_and_reset_channel c >>= λ r. retry r.1 r.0 >>= λ s. ok (s.0, r.2 ++ s.1)
