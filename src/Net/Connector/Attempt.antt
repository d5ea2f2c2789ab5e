-- ===== src/Net/Connector/Attempt.antt =====
-- connector.cpp: the socket of an attempt.
use tcp_net_library.Base.{
  ℕ, ◌≡◌, ◌≢◌, ◌⊎◌, refl, ap, ◌∙◌, Bool, true, false, not, ◌||◌, List, [], ◌∷◌, none, some, ◌==◌,
  if◌then◌else◌, ==_refl, Bool-cases, inl, inr, ok, assert, ◌>>=◌, ◌>>◌,
}
use tcp_net_library.Reactor.Channel.{Channel, disable_all}
use tcp_net_library.Net.Connector.{
  Connector, Status, is_disconnect, disconnect, connecting, connected, Effect, updates,
  removes_channel, queues_reset, closes, new_connection, Step, ConnectError, success, einprogress,
  eintr, eisconn, eagain, eaddrinuse, eaddrnotavail, econnrefused, enetunreach, eacces, eperm,
  eafnosupport, ealready, ebadf, efault, enotsock, unexpected, retry, attempt_channel,
  set_connecting, connect_with, start_inloop, remove_and_reset_channel, finish_attempt, write_in,
  handle_write, handle_error,
}

-- The sockets that are closed or handed to the user.
abbrev given_up : List Effect → List ℕ
given_up [] = []
given_up (closes fd ∷ es) = fd ∷ given_up es
given_up (new_connection fd ∷ es) = fd ∷ given_up es
given_up (_ ∷ es) = given_up es

-- The socket is gone, once, and the connector does not wait for it.
pub record Settled (fd : ℕ) (d : Connector) (es : List Effect) : Type 0 where
  pub once : given_up es ≡ fd ∷ []
  pub idle : d.status ≢ connecting

retry_ok :
    (c : Connector) (fd : ℕ)
    → (d : Connector) × (es : List Effect) × (retry c fd ≡ ok (d, es))
      × Settled fd d es
      × (d.status ≡ disconnect)
      × (d.channel ≡ c.channel)
unfolding retry
retry_ok c fd = by_flag c.connect
  where
    by_flag :
        (wanted : Bool)
        → (d : Connector) × (es : List Effect) × (retry (record c { connect = wanted }) fd
            ≡ ok (d, es))
          × Settled fd d es
          × (d.status ≡ disconnect)
          × (d.channel ≡ c.channel)
    by_flag true = (_, _, refl, record { once = refl; idle = λ e. absurd (cc e) }, refl, refl)
    by_flag false = (_, _, refl, record { once = refl; idle = λ e. absurd (cc e) }, refl, refl)

finish_attempt_ok :
    (c : Connector) (fd err : ℕ) (is_self : Bool)
    → (d : Connector) × (es : List Effect) × (finish_attempt c fd err is_self ≡ ok (d, es))
      × Settled fd d es
unfolding finish_attempt
finish_attempt_ok c fd err is_self = elim (Bool-cases (not (err == 0) || is_self)) [
  | inl e ↦ let (d, es, p, s, r, t) = retry_ok c fd in (d, es, rw e p, s)
  | inr e ↦ elim (Bool-cases c.connect) [
    | inl w ↦ (
      record c { status = connected },
      new_connection fd ∷ [],
      rw (e, w),
      record { once = refl; idle = λ h. absurd (cc h) },
    )
    | inr w ↦ (
      record c { status = connected },
      closes fd ∷ [],
      rw (e, w),
      record { once = refl; idle = λ h. absurd (cc h) },
    )
  ]
]

write_in_ok :
    (c d : Connector) (channel : Channel) (es : List Effect) (err : ℕ) (is_self : Bool)
    → c.channel ≡ some channel
    → finish_attempt (record c { channel = some (disable_all channel) }) channel.fd err is_self
      ≡ ok (d, es)
    → write_in connecting c err is_self
      ≡ ok (d, updates channel.fd 0 ∷ removes_channel channel.fd ∷ queues_reset ∷ es)
unfolding write_in remove_and_reset_channel
write_in_ok c d channel es err is_self h p = rw (h, p)

-- While an attempt is under way, `handleWrite` ends it, whatever the socket's error is: it never
-- fails, the connector is connecting no more, and the socket of the attempt is closed or handed to
-- the user, exactly once.
pub handle_write_settles :
    (c : Connector) (channel : Channel) (err : ℕ) (is_self : Bool)
    → c.status ≡ connecting
    → c.channel ≡ some channel
    → (d : Connector) × (es : List Effect) × (handle_write c err is_self ≡ ok (d, es))
      × Settled channel.fd d es
unfolding handle_write
handle_write_settles c channel err is_self s h =
    let c' : Connector = record c { channel = some (disable_all channel) } in
    let (d, es, p, r) = finish_attempt_ok c' channel.fd err is_self in
    let q = ap (λ t. write_in t c err is_self) s ∙ write_in_ok c d channel es err is_self h p in
    (
      d,
      updates channel.fd 0 ∷ removes_channel channel.fd ∷ queues_reset ∷ es,
      q,
      record { once = r.once; idle = r.idle },
    )

-- Where the error and the write callback run in one event, the second does nothing: after
-- `handleError` has given the socket up, `handleWrite` changes nothing and asks for nothing.
pub handle_error-handle_write :
    (c : Connector) (channel : Channel) (err : ℕ) (is_self : Bool)
    → c.channel ≡ some channel
    → (handle_error c >>= λ r. handle_write r.0 err is_self)
      ≡ (handle_error c >>= λ r. ok (r.0, []))
unfolding handle_error handle_write write_in retry remove_and_reset_channel
handle_error-handle_write c channel err is_self h = elim (Bool-cases c.connect) [
  | inl w ↦ rw (h, w)
  | inr w ↦ rw (h, w)
]

-- Where the socket `fd` of an attempt is.
abbrev pub Placed : ℕ → Connector → List Effect → Type 0
Placed fd d es =
    ((d.status ≡ connecting) × (d.channel ≡ some (attempt_channel fd)) × (given_up es ≡ []))
    ⊎ ((d.status ≡ disconnect) × (d.channel ≡ none) × (given_up es ≡ fd ∷ []))

waits :
    (c : Connector) (fd : ℕ)
    → c.channel ≡ none
    → (d : Connector) × (es : List Effect) × (set_connecting c fd ≡ ok (d, es)) × Placed fd d es
unfolding set_connecting
waits c fd n = (
  record c { status = connecting; channel = some (attempt_channel fd) },
  updates fd (attempt_channel fd).event ∷ [],
  rw n,
  inl (refl, refl, refl),
)

closed_again :
    (c : Connector) (fd : ℕ)
    → c.channel ≡ none
    → (d : Connector) × (es : List Effect) × (retry c fd ≡ ok (d, es)) × Placed fd d es
closed_again c fd n = let (d, es, p, r, s, t) = retry_ok c fd in (d, es, p, inr (s, t ∙ n, r.once))

connect_with_ok :
    (c : Connector) (fd : ℕ) (err : ConnectError)
    → c.status ≡ disconnect
    → c.channel ≡ none
    → (d : Connector) × (es : List Effect) × (connect_with c fd err ≡ ok (d, es)) × Placed fd d es
unfolding connect_with
connect_with_ok c fd success s n = waits c fd n
connect_with_ok c fd einprogress s n = waits c fd n
connect_with_ok c fd eintr s n = waits c fd n
connect_with_ok c fd eisconn s n = waits c fd n
connect_with_ok c fd eagain s n = closed_again c fd n
connect_with_ok c fd eaddrinuse s n = closed_again c fd n
connect_with_ok c fd eaddrnotavail s n = closed_again c fd n
connect_with_ok c fd econnrefused s n = closed_again c fd n
connect_with_ok c fd enetunreach s n = closed_again c fd n
connect_with_ok c fd eacces s n = (c, closes fd ∷ [], refl, inr (s, n, refl))
connect_with_ok c fd eperm s n = (c, closes fd ∷ [], refl, inr (s, n, refl))
connect_with_ok c fd eafnosupport s n = (c, closes fd ∷ [], refl, inr (s, n, refl))
connect_with_ok c fd ealready s n = (c, closes fd ∷ [], refl, inr (s, n, refl))
connect_with_ok c fd ebadf s n = (c, closes fd ∷ [], refl, inr (s, n, refl))
connect_with_ok c fd efault s n = (c, closes fd ∷ [], refl, inr (s, n, refl))
connect_with_ok c fd enotsock s n = (c, closes fd ∷ [], refl, inr (s, n, refl))
connect_with_ok c fd unexpected s n = (c, closes fd ∷ [], refl, inr (s, n, refl))

-- An attempt, where none is under way and the last channel is gone: the new socket either waits in
-- the channel of the connecting connector, or is closed once, and the connector stays disconnected.
start_inloop_ok :
    (c : Connector) (fd : ℕ) (err : ConnectError)
    → c.status ≡ disconnect
    → c.channel ≡ none
    → c.connect ≡ true
    → (d : Connector) × (es : List Effect) × (start_inloop c.thread c fd err ≡ ok (d, es))
      × Placed fd d es
unfolding start_inloop
start_inloop_ok c fd err s n w =
    let (d, es, p, o) = connect_with_ok c fd err s n in
    let go : Step = connect_with c fd err in
    let by_status : Status → Step =
      λ t. assert (is_disconnect t) >> (if c.connect then go else ok (c, [])) in
    let q = ap by_status s ∙ ap (λ t. if t then go else ok (c, [])) w ∙ p in
    (d, es, rw (==_refl c.thread) q, o)
