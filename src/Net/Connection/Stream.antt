-- ===== src/Net/Connection/Stream.antt =====
-- tcpConnection.cpp: `sendInLoop`, and the bytes that a connection has accepted.
use tcp_net_library.Base.{
  ℕ, ◌+◌, ◌≤◌, ◌<◌, ◌≡◌, refl, ap, sym, ◌∙◌, true, false, not, List, [], ◌∷◌, ◌++◌, append-nil,
  append_assoc, arith, length, length-append, length-drop, take, drop, take-append-drop, ltb,
  ltb→lt, ltb_false→le, ==_refl, ne→==_false, Bool-cases, inl, inr, ok, ◌==◌, if◌then◌else◌, ==_iff,
  ◌⊎◌,
}
use tcp_net_library.Buffer.{max_size, cheap_prepared, readable_bytes}
use tcp_net_library.Buffer.Invariant.{contents, length-contents}
use tcp_net_library.Buffer.Invariant as Inv
use tcp_net_library.Buffer.Append.{append_ok}
use tcp_net_library.Reactor.Channel.{is_writing, enable_writing}
use tcp_net_library.Reactor.Channel.Events.{IsEvents, has-or_write, or_write-IsEvents}
use tcp_net_library.Net.Connection.{
  TcpConnection, Effect, updates, WriteResult, taken, keep_rest, send_inloop,
}

-- The output buffer is in order, and the channel watches for writing exactly while bytes wait.
pub record IsValid (c : TcpConnection) : Type 0 where
  pub output : Inv.IsValid c.output
  pub events : IsEvents c.channel.event
  pub armed : is_writing c.channel ≡ not (readable_bytes c.output == 0)

-- Every byte that the connection has accepted: those that `write` took, then those that wait.
abbrev pub stream : TcpConnection → List ℕ
stream c = c.sent ++ contents c.output

-- What stays between `c` and `d`.
pub record Extends (c : TcpConnection) (message : List ℕ) (d : TcpConnection) : Type 0 where
  pub valid : IsValid d
  pub bytes : stream d ≡ stream c ++ message
  pub same_state : d.state ≡ c.state
  pub same_thread : d.thread ≡ c.thread
  pub same_input : d.input ≡ c.input

pub nil_of_length : (xs : List ℕ) → length xs ≡ 0 → xs ≡ []
nil_of_length [] h = refl
nil_of_length (x ∷ xs) h = absurd (omega arith)

keep_rest_ok :
    {c : TcpConnection} (rest : List ℕ)
    → Inv.IsValid c.output
    → IsEvents c.channel.event
    → 0 < length rest
    → length c.output.buffer + length rest + cheap_prepared ≤ max_size
    → (d : TcpConnection) × (es : List Effect) × (keep_rest c rest ≡ ok (d, es)) × Extends c rest d
unfolding keep_rest
keep_rest_ok {c} rest v e h s =
    let (out, p, r) = append_ok rest v s in
    let some_wait : (readable_bytes out == 0) ≡ false = ne→==_false _ _ (
      omega (
        arith,
        length-contents r.valid,
        ap length r.bytes,
        length-append (contents c.output) rest,
      )) in
    let joined : c.sent ++ contents out ≡ (c.sent ++ contents c.output) ++ rest =
      ap (◌++◌ c.sent) r.bytes ∙ sym (append_assoc c.sent (contents c.output) rest) in
    elim (Bool-cases (is_writing c.channel)) [
      | inl w ↦ (
        record c { output = out },
        [],
        rw (p, w),
        record {
          valid = record { output = r.valid; events = e; armed = rw (w, some_wait) };
          bytes = joined;
          same_state = refl;
          same_thread = refl;
          same_input = refl;
        },
      )
      | inr w ↦ (
        record c { output = out; channel = enable_writing c.channel },
        updates (enable_writing c.channel).event ∷ [],
        rw (p, w),
        record {
          valid = record {
            output = r.valid;
            events = or_write-IsEvents c.channel.event e;
            armed = has-or_write c.channel.event e ∙ rw some_wait;
          };
          bytes = joined;
          same_state = refl;
          same_thread = refl;
          same_input = refl;
        },
      )
    ]

-- The part of `sendInLoop` after the first `write` took `n` bytes.
abbrev rest_of_send : TcpConnection → List ℕ → ℕ → TcpConnection
rest_of_send c message n = record c { sent = c.sent ++ take n message }

regroup :
    (a q t d m : List ℕ) → t ++ d ≡ m → (t ≡ []) ⊎ (q ≡ []) → ((a ++ t) ++ q) ++ d ≡ (a ++ q) ++ m
regroup a q t d m e (inl h) =
    let m_eq : d ≡ m = ap (λ k. k ++ d) (sym h) ∙ e in
    ap (λ k. ((a ++ k) ++ q) ++ d) h
    ∙ ap (λ k. (k ++ q) ++ d) (append-nil a)
    ∙ ap (◌++◌ (a ++ q)) m_eq
regroup a q t d m e (inr h) =
    ap (λ k. ((a ++ t) ++ k) ++ d) h
    ∙ ap (λ k. k ++ d) (append-nil (a ++ t))
    ∙ append_assoc a t d
    ∙ ap (◌++◌ a) e
    ∙ ap (λ k. k ++ m) (sym (append-nil a))
    ∙ ap (λ k. (a ++ k) ++ m) (sym h)

apart : (q : List ℕ) (n : ℕ) (xs : List ℕ) → (n ≡ 0) ⊎ (q ≡ []) → (take n xs ≡ []) ⊎ (q ≡ [])
apart q n xs (inl h) = inl (ap (λ t. take t xs) h)
apart q n xs (inr h) = inr h

send_inloop_tail :
    {c : TcpConnection} (message : List ℕ) (n : ℕ)
    → IsValid c
    → n ≤ length message
    → (n ≡ 0) ⊎ (contents c.output ≡ [])
    → length c.output.buffer + length message + cheap_prepared ≤ max_size
    → (d : TcpConnection) × (es : List Effect) × ((if ltb n (length message)
          then keep_rest (rest_of_send c message n) (drop n message)
          else ok (rest_of_send c message n, []))
        ≡ ok (d, es))
      × Extends c message d
send_inloop_tail {c} message n v l empty s =
    let whole =
      regroup c.sent (contents c.output) (take n message) (drop n message) message
        (take-append-drop n message) (apart (contents c.output) n message empty) in
    elim (Bool-cases (ltb n (length message))) [
      | inl h ↦
          let k = length-drop n message in
          let (d, es, p, r) =
            keep_rest_ok {c = rest_of_send c message n} (drop n message) v.output v.events
              (omega (arith, ltb→lt _ _ h)) (omega arith) in
          (
            d,
            es,
            rw h p,
            record {
              valid = r.valid;
              bytes = r.bytes ∙ whole;
              same_state = r.same_state;
              same_thread = r.same_thread;
              same_input = r.same_input;
            },
          )
      | inr h ↦
          let none_left : drop n message ≡ [] =
            nil_of_length (drop n message)
              (omega (arith, length-drop n message, ltb_false→le _ _ h)) in
          (
            rest_of_send c message n,
            [],
            rw h,
            record {
              valid = record { output = v.output; events = v.events; armed = v.armed };
              bytes =
                  sym (append-nil (stream (rest_of_send c message n)))
                  ∙ ap (◌++◌ (stream (rest_of_send c message n))) (sym none_left)
                  ∙ whole;
              same_state = refl;
              same_thread = refl;
              same_input = refl;
            },
          )
    ]

-- `sendInLoop` never fails while the sizes stay below the largest vector, whatever `write` answers:
-- the message joins the stream of the connection at its end, each byte once, part of it written and
-- the rest waiting, and the channel watches for writing exactly while bytes wait.
pub send_inloop_ok :
    {c : TcpConnection} (message : List ℕ) (answer : WriteResult)
    → IsValid c
    → taken answer ≤ length message
    → length c.output.buffer + length message + cheap_prepared ≤ max_size
    → (d : TcpConnection) × (es : List Effect) × (send_inloop c.thread c message answer
        ≡ ok (d, es))
      × Extends c message d
unfolding send_inloop
send_inloop_ok {c} message answer v l s = elim (Bool-cases (readable_bytes c.output == 0)) [
  | inl e ↦
      let w : is_writing c.channel ≡ false = v.armed ∙ ap not e in
      let q : contents c.output ≡ [] =
        nil_of_length (contents c.output) (length-contents v.output ∙ (==_iff _ _).0 e) in
      rw (==_refl c.thread, w, e) (send_inloop_tail message (taken answer) v l (inr q) s)
  | inr e ↦
      let w : is_writing c.channel ≡ true = v.armed ∙ ap not e in
      rw (==_refl c.thread, w) (send_inloop_tail message 0 v (omega arith) (inl refl) s)
]
