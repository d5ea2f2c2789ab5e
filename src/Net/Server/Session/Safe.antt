-- ===== src/Net/Server/Session/Safe.antt =====
-- tcpServer.cpp and tcpConnection.cpp: no functor of a session fails its assertion.
use tcp_net_library.Base.{
  ℕ, ◌≡◌, refl, ap, sym, subst, ◌∙◌, Bool, true, false, List, [], ◌∷◌, ◌++◌, append-nil, arith,
  Result, ok, fault, ==_refl, if◌then◌else◌, ok_inj,
}
use tcp_net_library.Net.Connection.{
  State, connecting, connected, disconnecting, disconnected, TcpConnection, WriteResult,
  connect_eestablished, connect_destory,
}
use tcp_net_library.Net.Connection as Connection
use tcp_net_library.Net.Connection.Lifecycle.{
  Call, establish, destroy, perform, has_been_up, is_over,
}
use tcp_net_library.Net.Connection.Stays.{IsUse, perform-Stays}
use tcp_net_library.Net.Server.{
  TcpServer, TcpConnectMap, erase, queues_destory, remove_connection_in_loop,
}
use tcp_net_library.Net.Server as Server
use tcp_net_library.Net.Server.Lifetime.{Unused, erase-Unused}
use tcp_net_library.Net.Server.Session.{
  Session, queued, destroys, Step, calls, runs, removes, Steps, stay, after,
}
use tcp_net_library.Net.Server.Session.Sound.{
  Stage, waiting, living, over, stage, Due, begins, ends, use_living, use_over, kept, gone,
  queued-AllUse, Due-uses, Due-destroy,
}

-- Whether the server still has the connection `p`, under its name.
pub data Named (w : TcpServer) (p : ℕ) : Bool → Type 0 where
  held :
      {rest : TcpConnectMap}
      → erase (w.objects p).name w.connects ≡ (rest, 1)
      → Unused (w.objects p).name rest
      → Named w p true
  lost : Unused (w.objects p).name w.connects → Named w p false

pub record IsSound (p : ℕ) (s : Session) : Type 0 where
  pub has : Bool
  pub due : Due (stage s.conn.state) has s.io
  pub named : Named s.server p has

stage-same :
    (x y : State) → has_been_up y ≡ has_been_up x → is_over y ≡ is_over x → stage y ≡ stage x
stage-same x y h k = ground arith

perform-establish :
    (caller : ℕ) (c d : TcpConnection) (es : List Connection.Effect)
    → perform caller c establish ≡ ok (d, es)
    → stage d.state ≡ living
unfolding perform connect_eestablished
perform-establish caller c d es h = ground arith

perform-destroy :
    (caller : ℕ) (c d : TcpConnection) (es : List Connection.Effect)
    → perform caller c destroy ≡ ok (d, es)
    → stage d.state ≡ over
unfolding perform connect_destory
perform-destroy caller c d es h = ground arith

is_ok : {A : Type 0} → Result A → Bool
is_ok (fault why) = false
is_ok (ok a) = true

ok-some : {A : Type 0} (r : Result A) → is_ok r ≡ true → (a : A) × (r ≡ ok a)
unfolding is_ok
ok-some (fault why) h = absurd (cc h)
ok-some (ok a) h = (a, refl)

establish_runs :
    (c : TcpConnection)
    → stage c.state ≡ waiting
    → (r : TcpConnection × List Connection.Effect) × (perform c.thread c establish ≡ ok r)
unfolding perform connect_eestablished is_ok
establish_runs c h = ok-some (connect_eestablished c.thread c) (ground arith)

destroy_runs :
    (c : TcpConnection)
    → stage c.state ≡ living
    → (r : TcpConnection × List Connection.Effect) × (perform c.thread c destroy ≡ ok r)
unfolding perform connect_destory is_ok
destroy_runs c h = ok-some (connect_destory c.thread c) (ground arith)

tail_eq : {c d : Call} {cs ds : List Call} → (c ∷ cs) ≡ (d ∷ ds) → (c ≡ d) × (cs ≡ ds)
tail_eq h = (cc h, cc h)

use-stage :
    (c d : TcpConnection) (es : List Connection.Effect) (caller : ℕ) (call : Call)
    → IsUse call
    → perform caller c call ≡ ok (d, es)
    → stage d.state ≡ stage c.state
use-stage c d es caller call u h =
    let s = perform-Stays caller c d es call u h in stage-same c.state d.state s.up s.over

run-Due :
    (c d : TcpConnection) (es : List Connection.Effect) (call : Call) (st : Stage) (b : Bool)
    (io rest : List Call)
    → st ≡ stage c.state
    → io ≡ call ∷ rest
    → perform c.thread c call ≡ ok (d, es)
    → Due st b io
    → Due (stage d.state) b rest
run-Due c d es call st b io rest s e h kept = absurd (cc e)
run-Due c d es call st b io rest s e h gone = absurd (cc e)
run-Due c d es call st b io rest s e h (begins g) =
    let (x, y) = tail_eq e in
    let up = perform-establish c.thread c d es (ap (perform c.thread c) x ∙ h) in
    subst (λ t. Due t b rest) (sym up) (subst (Due _ b) y g)
run-Due c d es call st b io rest s e h (ends g) =
    let (x, y) = tail_eq e in
    let up = perform-destroy c.thread c d es (ap (perform c.thread c) x ∙ h) in
    subst (λ t. Due t b rest) (sym up) (subst (Due _ b) y g)
run-Due c d es call st b io rest s e h (use_living u g) =
    let (x, y) = tail_eq e in
    let same = use-stage c d es c.thread call (subst IsUse x u) h in
    subst (λ t. Due t b rest) (s ∙ sym same) (subst (Due _ b) y g)
run-Due c d es call st b io rest s e h (use_over u g) =
    let (x, y) = tail_eq e in
    let same = use-stage c d es c.thread call (subst IsUse x u) h in
    subst (λ t. Due t b rest) (s ∙ sym same) (subst (Due _ b) y g)

removal :
    (w : TcpServer) (p : ℕ) (b : Bool)
    → Named w p b
    → (v : TcpServer) × (es : List Server.Effect) × (remove_connection_in_loop w.thread w p
        ≡ ok (v, es))
      × Named v p false
      × (destroys es ≡ (if b then destroy ∷ [] else []))
unfolding remove_connection_in_loop
removal w p b (held {rest} e u) = (
  record w { connects = rest },
  queues_destory (w.objects p).loop p ∷ [],
  rw (==_refl w.thread, e),
  lost u,
  refl,
)
removal w p b (lost u) = (
  record w { connects = w.connects },
  [],
  rw (==_refl w.thread, erase-Unused (w.objects p).name w.connects u),
  lost u,
  refl,
)

Due-removal :
    (st : Stage) (b : Bool) (io : List Call)
    → Due st b io
    → Due st false (io ++ (if b then destroy ∷ [] else []))
Due-removal st true io d = Due-destroy true refl d
Due-removal st false io d = subst (Due st false) (sym (append-nil io)) d

step-IsSound : {p : ℕ} {s t : Session} → Step p s t → IsSound p s → IsSound p t
step-IsSound {s = s} (calls {d = d} {es} caller call answer u h) i =
    let same = use-stage s.conn d es caller call u h in
    record {
      has = i.has;
      due =
          Due-uses (queued answer es) (queued-AllUse answer es)
            (subst (λ t. Due t i.has s.io) (sym same) i.due);
      named = i.named;
    }
step-IsSound {s = s} (runs {d = d} {es} {rest} call answer e h) i = record {
  has = i.has;
  due =
      Due-uses (queued answer es) (queued-AllUse answer es)
        (run-Due s.conn d es call _ i.has s.io rest refl e h i.due);
  named = i.named;
}
step-IsSound {p} {s} (removes {w = w} {es} h) i =
    let (v, fs, e, n, k) = removal s.server p i.has i.named in
    let same = ok_inj (sym e ∙ h) in
    record {
      has = false;
      due =
          subst (λ t. Due (stage s.conn.state) false (s.io ++ t))
            (sym k ∙ ap (λ t. destroys t.1) same)
            (Due-removal (stage s.conn.state) i.has s.io i.due);
      named = subst (λ t. Named t p false) (ap (λ t. t.0) same) n;
    }

steps-IsSound : {p : ℕ} {s t : Session} → Steps p s t → IsSound p s → IsSound p t
steps-IsSound stay i = i
steps-IsSound (after a more) i = steps-IsSound more (step-IsSound a i)

next-runs :
    (c : TcpConnection) (call : Call) (st : Stage) (b : Bool) (io rest : List Call)
    → st ≡ stage c.state
    → io ≡ call ∷ rest
    → (IsUse call → ⊥)
    → Due st b io
    → (r : TcpConnection × List Connection.Effect) × (perform c.thread c call ≡ ok r)
next-runs c call st b io rest s e n kept = absurd (cc e)
next-runs c call st b io rest s e n gone = absurd (cc e)
next-runs c call st b io rest s e n (begins g) =
    let (r, h) = establish_runs c (sym s) in (r, ap (perform c.thread c) (sym (tail_eq e).0) ∙ h)
next-runs c call st b io rest s e n (ends g) =
    let (r, h) = destroy_runs c (sym s) in (r, ap (perform c.thread c) (sym (tail_eq e).0) ∙ h)
next-runs c call st b io rest s e n (use_living u g) = absurd (n (subst IsUse (tail_eq e).0 u))
next-runs c call st b io rest s e n (use_over u g) = absurd (n (subst IsUse (tail_eq e).0 u))

-- However the handlers of a connection, the calls of its users in any threads, the functors of its
-- loop and the removals in the server's loop follow one another, from a sound session on: whenever the
-- next functor is `connectEestablished` or `connectDestory`, its assertions hold, and the server can
-- always run the removal. The connection is established once, before it is destroyed, and it is
-- destroyed at most once, after the server has let it go.
pub steps_safe :
    {p : ℕ} {s t : Session} (call : Call) (rest : List Call)
    → Steps p s t
    → IsSound p s
    → t.io ≡ call ∷ rest
    → (IsUse call → ⊥)
    → (r : TcpConnection × List Connection.Effect) × (q : TcpServer × List Server.Effect) × (perform
          t.conn.thread t.conn call
        ≡ ok r)
      × (remove_connection_in_loop t.server.thread t.server p ≡ ok q)
      × IsSound p t
steps_safe {p} {s} {t} call rest steps i e n =
    let j = steps-IsSound steps i in
    let (r, h) = next-runs t.conn call _ j.has t.io rest refl e n j.due in
    let (v, es, k, l, m) = removal t.server p j.has j.named in (r, (v, es), h, k, j)
