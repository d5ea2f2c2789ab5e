-- ===== src/Net/Connection/Drain.antt =====
-- tcpConnection.cpp: `handleWrite` and `shutdownInLoop`.
use tcp_net_library.Base.{
  ℕ, ◌-◌, ◌≤◌, ◌≡◌, refl, ap, sym, ◌∙◌, true, false, not, List, [], ◌∷◌, ◌++◌, append-nil,
  append_assoc, arith, take, take-nil, take-append-drop, ltb, ltb_false→le, ==_refl, ==_iff,
  Bool-cases, inl, inr, ok, ◌==◌, if◌then◌else◌,
}
use tcp_net_library.Buffer.{readable_bytes, slice, peek}
use tcp_net_library.Buffer.Memory.{slice_ok}
use tcp_net_library.Buffer.Invariant.{contents, length-contents, readable}
use tcp_net_library.Buffer.Retrieve.{retrieve_ok}
use tcp_net_library.Reactor.Channel.{is_writing, disable_writing}
use tcp_net_library.Reactor.Channel.Events.{IsEvents, has-clear_write, clear_write-IsEvents}
use tcp_net_library.Net.Connection.{
  TcpConnection, Effect, updates, shuts_down_write, WriteResult, write_failed, wrote, taken,
  is_disconnecting, handle_write, after_write, on_write_answer, written_out, shutdown_inloop,
}
use tcp_net_library.Net.Connection.Stream.{IsValid, stream, nil_of_length}

-- `shutdownInLoop` shuts the write side down exactly where nothing waits to be written.
pub shutdown_inloop_lem :
    {c : TcpConnection}
    → IsValid c
    → shutdown_inloop c.thread c
      ≡ ok (c, if readable_bytes c.output == 0 then shuts_down_write ∷ [] else [])
unfolding shutdown_inloop
shutdown_inloop_lem {c} v = elim (Bool-cases (readable_bytes c.output == 0)) [
  | inl e ↦ rw (==_refl c.thread, v.armed, e)
  | inr e ↦ rw (==_refl c.thread, v.armed, e)
]

abbrev disarmed : TcpConnection → TcpConnection
disarmed c = record c { channel = disable_writing c.channel }

abbrev closing : TcpConnection → List Effect
closing c = if is_disconnecting c.state then shuts_down_write ∷ [] else []

written_out_ok :
    (c : TcpConnection)
    → IsEvents c.channel.event
    → written_out c.thread c
      ≡ ok (disarmed c, updates (disable_writing c.channel).event ∷ closing c)
unfolding written_out shutdown_inloop
written_out_ok c e = elim (Bool-cases (is_disconnecting c.state)) [
  | inl s ↦ rw (s, ==_refl c.thread, has-clear_write c.channel.event e)
  | inr s ↦ rw s
]

pending_ok :
    {c : TcpConnection}
    → IsValid c
    → slice c.output.buffer (peek c.output) (readable_bytes c.output) ≡ ok (contents c.output)
pending_ok {c} v = rw (
  readable v.output,
  slice_ok c.output.buffer c.output.read_index (c.output.write_index - c.output.read_index)
      (omega (arith, v.output.order, v.output.fits)),
)

-- What is left where `n` waiting bytes have been written: the same stream, the same state.
pub record Drained (c : TcpConnection) (n : ℕ) (d : TcpConnection) : Type 0 where
  pub valid : IsValid d
  pub bytes : stream d ≡ stream c
  pub same_state : d.state ≡ c.state
  pub same_thread : d.thread ≡ c.thread
  pub written : d.sent ≡ c.sent ++ take n (contents c.output)

unwritten :
    {c : TcpConnection} (n : ℕ) → IsValid c → take n (contents c.output) ≡ [] → Drained c n c
unwritten {c} n v e = record {
  valid = v;
  bytes = refl;
  same_state = refl;
  same_thread = refl;
  written = sym (append-nil c.sent) ∙ ap (◌++◌ c.sent) (sym e);
}

take_zero : (n : ℕ) (xs : List ℕ) → n ≤ 0 → take n xs ≡ []
take_zero n xs h = let e : n ≡ 0 = omega arith in ap (λ k. take k xs) e

after_write_ok :
    {c : TcpConnection} (n : ℕ)
    → IsValid c
    → is_writing c.channel ≡ true
    → n ≤ readable_bytes c.output
    → (d : TcpConnection) × (es : List Effect) × (after_write c.thread c (contents c.output) n
        ≡ ok (d, es))
      × Drained c n d
unfolding after_write
after_write_ok {c} n v w l = elim (Bool-cases (ltb 0 n)) [
  | inr z ↦ (c, [], rw z, unwritten n v (take_zero n (contents c.output) (ltb_false→le _ _ z)))
  | inl h ↦
      let (out, p, k) = retrieve_ok n v.output l in
      let whole : (c.sent ++ take n (contents c.output)) ++ contents out ≡ stream c =
        append_assoc c.sent (take n (contents c.output)) (contents out)
        ∙ ap (λ t. c.sent ++ (take n (contents c.output) ++ t)) k.bytes
        ∙ ap (◌++◌ c.sent) (take-append-drop n (contents c.output)) in
      let c' : TcpConnection = record c {
        output = out;
        sent = c.sent ++ take n (contents c.output);
      } in
      elim (Bool-cases (readable_bytes out == 0)) [
        | inl e ↦ (
          disarmed c',
          updates (disable_writing c.channel).event ∷ closing c,
          rw (h, p, e) (written_out_ok c' v.events),
          record {
            valid = record {
              output = k.valid;
              events = clear_write-IsEvents c.channel.event v.events;
              armed = has-clear_write c.channel.event v.events ∙ ap not (sym e);
            };
            bytes = whole;
            same_state = refl;
            same_thread = refl;
            written = refl;
          },
        )
        | inr e ↦ (
          c',
          [],
          rw (h, p, e),
          record {
            valid = record { output = k.valid; events = v.events; armed = w ∙ ap not (sym e) };
            bytes = whole;
            same_state = refl;
            same_thread = refl;
            written = refl;
          },
        )
      ]
]

taken_nothing :
    {c : TcpConnection} (n : ℕ)
    → IsValid c
    → is_writing c.channel ≡ false
    → take n (contents c.output) ≡ []
taken_nothing {c} n v w = elim (Bool-cases (readable_bytes c.output == 0)) [
  | inl e ↦
      let empty : contents c.output ≡ [] =
        nil_of_length (contents c.output) (length-contents v.output ∙ (==_iff _ _).0 e) in
      ap (take n) empty ∙ take-nil n
  | inr e ↦ absurd (cc (w, v.armed ∙ ap not e))
]

on_write_answer_ok :
    {c : TcpConnection} (answer : WriteResult)
    → IsValid c
    → is_writing c.channel ≡ true
    → taken answer ≤ readable_bytes c.output
    → (d : TcpConnection) × (es : List Effect) × (on_write_answer c.thread c
          (contents c.output)
          answer
        ≡ ok (d, es))
      × Drained c (taken answer) d
unfolding on_write_answer
on_write_answer_ok {c} write_failed v w l = (c, [], refl, unwritten 0 v refl)
on_write_answer_ok (wrote n) v w l = after_write_ok n v w l

-- `handleWrite` never fails, whatever `write` answers: the stream of the connection stays what it is,
-- the waiting bytes that `write` took now count as written, in order, and the channel still watches
-- for writing exactly while bytes wait.
pub handle_write_ok :
    {c : TcpConnection} (answer : WriteResult)
    → IsValid c
    → taken answer ≤ readable_bytes c.output
    → (d : TcpConnection) × (es : List Effect) × (handle_write c.thread c answer ≡ ok (d, es))
      × Drained c (taken answer) d
unfolding handle_write
handle_write_ok {c} answer v l = elim (Bool-cases (is_writing c.channel)) [
  | inr w ↦ (
    c,
    [],
    rw (==_refl c.thread, w),
    unwritten (taken answer) v (taken_nothing (taken answer) v w),
  )
  | inl w ↦ rw (==_refl c.thread, w, pending_ok v) (on_write_answer_ok answer v w l)
]
