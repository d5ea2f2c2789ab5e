-- ===== src/Net/Connection.antt =====
-- tcpConnection.h and tcpConnection.cpp: one connection, with its two buffers and its channel.
-- A handler takes the connection, the answers of its system calls and its caller's thread, and
-- returns the connection with what it asks of others, in order. User callbacks run where a handler
-- ends, so what they call comes as further steps.
pub mod Stream
pub mod Drain
pub mod Lifecycle
pub mod Stays
use tcp_net_library.Base.{
  ℕ, ◌-◌, ◌<◌, Bool, true, false, not, ◌&&◌, ◌||◌, List, [], ◌∷◌, ◌++◌, length, take, drop, ltb,
  ◌==◌, if◌then◌else◌, Result, ok, fault, assert, ◌>>=◌, ◌>>◌,
}
use tcp_net_library.Buffer.{
  Buffer, ReadResult, read_failed, got, read_fd, append, retrieve, retrieve_all, readable_bytes,
  peek, slice, init,
}
use tcp_net_library.Reactor.Channel.{
  Channel, new_channel, enable_reading, enable_writing, disable_writing, disable_all, is_writing,
}
use tcp_net_library.Reactor.Poller.{assert_in_loop}

pub data State : Type 0 where
  connecting connected disconnecting disconnected : State

abbrev pub is_connected : State → Bool
is_connected connected = true
is_connected _ = false

abbrev pub is_connecting : State → Bool
is_connecting connecting = true
is_connecting _ = false

abbrev pub is_disconnecting : State → Bool
is_disconnecting disconnecting = true
is_disconnecting _ = false

-- `sent` is what `write` has taken so far, in order.
pub record TcpConnection : Type 0 where
  pub thread : ℕ
  pub state : State
  pub channel : Channel
  pub input : Buffer
  pub output : Buffer
  pub sent : List ℕ
  pub has_connection_callback : Bool

-- What a handler asks of the loop, the socket, the server and the user.
pub data Effect : Type 0 where
  updates : ℕ → Effect
  removes_channel : Effect
  shuts_down_write : Effect
  connection_callback : State → Effect
  message_callback : Effect
  close_callback : Effect
  reads_error : Effect
  queues_send : List ℕ → Effect
  queues_shutdown : Effect

abbrev pub Step : Type 0
Step = Result (TcpConnection × List Effect)

-- What `write` answers: an error, or the number of bytes that it takes.
pub data WriteResult : Type 0 where
  write_failed : WriteResult
  wrote : ℕ → WriteResult

-- The constructor; its channel has the four callbacks.
unfoldable pub new_connection : ℕ → ℕ → Bool → Result TcpConnection
new_connection thread sockfd has_callback = do
  input ← init
  output ← init
  ok (record {
    thread = thread;
    state = connecting;
    channel = record (new_channel sockfd) {
      has_read = true;
      has_write = true;
      has_close = true;
      has_error = true;
    };
    input = input;
    output = output;
    sent = [];
    has_connection_callback = has_callback;
  })

abbrev notify : TcpConnection → State → List Effect
notify c state = if c.has_connection_callback then connection_callback state ∷ [] else []

unfoldable pub connect_eestablished : ℕ → TcpConnection → Step
connect_eestablished caller c = do
  assert_in_loop c.thread caller
  assert (is_connecting c.state)
  let channel = enable_reading c.channel
  ok (record c { state = connected; channel = channel }, updates channel.event ∷ notify c connected)

unfoldable pub connect_destory : ℕ → TcpConnection → Step
connect_destory caller c = do
  assert_in_loop c.thread caller
  assert (is_connected c.state || is_disconnecting c.state)
  let channel = disable_all c.channel
  ok (
    record c { state = disconnected; channel = channel },
    updates channel.event ∷ (notify c disconnected ++ removes_channel ∷ []),
  )

unfoldable pub handle_close : ℕ → TcpConnection → Step
handle_close caller c = do
  assert_in_loop c.thread caller
  assert (is_connected c.state || is_disconnecting c.state)
  let channel = disable_all c.channel
  ok (record c { channel = channel }, updates channel.event ∷ close_callback ∷ [])

unfoldable pub handle_error : TcpConnection → Step
handle_error c = ok (c, reads_error ∷ [])

unfoldable pub handle_read : ℕ → TcpConnection → ReadResult → Step
handle_read caller c (read_failed errno) =
    read_fd c.input (read_failed errno) >>= λ input. handle_error (record c { input = input })
handle_read caller c (got []) =
    read_fd c.input (got []) >>= λ input. handle_close caller (record c { input = input })
handle_read caller c (got (x ∷ xs)) = read_fd c.input (got (x ∷ xs)) >>= λ input.
    ok (record c { input = input }, message_callback ∷ [])

unfoldable pub shutdown_inloop : ℕ → TcpConnection → Step
shutdown_inloop caller c =
    assert_in_loop c.thread caller
    >> ok (c, if is_writing c.channel then [] else shuts_down_write ∷ [])

-- The output buffer has been written out: no more write events, and the delayed shutdown.
unfoldable pub written_out : ℕ → TcpConnection → Step
written_out caller c =
    let channel = disable_writing c.channel in
    let idle = record c { channel = channel } in
    if is_disconnecting c.state
    then (shutdown_inloop caller idle >>= λ r. ok (r.0, updates channel.event ∷ r.1))
    else ok (idle, updates channel.event ∷ [])

-- `write` has taken `n` of the pending bytes.
unfoldable pub after_write : ℕ → TcpConnection → List ℕ → ℕ → Step
after_write caller c pending n =
    if ltb 0 n
    then (retrieve c.output n >>= λ output.
        let c' = record c { output = output; sent = c.sent ++ take n pending } in
        if readable_bytes output == 0 then written_out caller c' else ok (c', []))
    else ok (c, [])

unfoldable pub on_write_answer : ℕ → TcpConnection → List ℕ → WriteResult → Step
on_write_answer caller c pending write_failed = ok (c, [])
on_write_answer caller c pending (wrote n) = after_write caller c pending n

unfoldable pub handle_write : ℕ → TcpConnection → WriteResult → Step
handle_write caller c answer =
    assert_in_loop c.thread caller
    >> (if is_writing c.channel
        then (slice c.output.buffer (peek c.output) (readable_bytes c.output) >>= λ pending.
            on_write_answer caller c pending answer)
        else ok (c, []))

-- The bytes that the first `write` did not take wait in the output buffer.
unfoldable pub keep_rest : TcpConnection → List ℕ → Step
keep_rest c rest = append c.output rest >>= λ output.
    if is_writing c.channel
    then ok (record c { output = output }, [])
    else (let channel = enable_writing c.channel in
        ok (record c { output = output; channel = channel }, updates channel.event ∷ []))

-- The number of bytes taken by the first `write`: none where it fails.
abbrev pub taken : WriteResult → ℕ
taken write_failed = 0
taken (wrote n) = n

-- `message` is written at once where nothing waits.
unfoldable pub send_inloop : ℕ → TcpConnection → List ℕ → WriteResult → Step
send_inloop caller c message answer =
    let idle = not (is_writing c.channel) && readable_bytes c.output == 0 in
    let n = if idle then taken answer else 0 in
    let c' = record c { sent = c.sent ++ take n message } in
    assert_in_loop c.thread caller
    >> (if ltb n (length message) then keep_rest c' (drop n message) else ok (c', []))

-- From another thread the message is queued for the loop.
unfoldable pub send : ℕ → TcpConnection → List ℕ → WriteResult → Step
send caller c message answer =
    if is_connected c.state
    then if c.thread == caller
      then send_inloop caller c message answer
      else ok (c, queues_send message ∷ [])
    else ok (c, [])

-- `send(Buffer*)`: takes the whole buffer, also where the connection sends nothing.
unfoldable pub send_buffer :
    ℕ → TcpConnection → Buffer → WriteResult → Result (Buffer × TcpConnection × List Effect)
send_buffer caller c message answer =
    slice message.buffer (peek message) (readable_bytes message) >>= λ msg.
    send caller c msg answer >>= λ r. ok (retrieve_all message, r.0, r.1)

unfoldable pub shutdown : ℕ → TcpConnection → Step
shutdown caller c =
    if is_connected c.state
    then (let closing = record c { state = disconnecting } in
        if c.thread == caller
        then shutdown_inloop caller closing
        else ok (closing, queues_shutdown ∷ []))
    else ok (c, [])
