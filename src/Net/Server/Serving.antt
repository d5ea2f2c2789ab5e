-- ===== src/Net/Server/Serving.antt =====
-- tcpServer.cpp: a server from its constructor on, as connections come and go in its loop.
use tcp_net_library.Base.{
  ℕ, ◌+◌, ◌<◌, ◌≤◌, ◌^◌, ◌≡◌, refl, ap, sym, ◌∙◌, true, List, [], ◌∷◌, ◌++◌, arith, length, Result,
  ok, ◌>>=◌, ==_refl,
}
use tcp_net_library.Net.Address.{NetAddress}
use tcp_net_library.Net.Pool.{Pool, get_next_loop, start_loops}
use tcp_net_library.Net.Pool as Pool
use tcp_net_library.Net.Pool.Rotation.{InTurn, get_next_loop-InTurn}
use tcp_net_library.Net.Server.{
  TcpServer, Effect, runs_listen, runs_established, queues_destory, queues_removal, new_server,
  set_thread_num, start, start_pool, new_connection, remove_connection_in_loop,
}
use tcp_net_library.Net.Server.Names.{
  IsNamed, new_connection-IsNamed, with_connection, without, established, destroyed,
  remove_connection-IsNamed,
}

-- A new connection, as an object, or the removal of one.
pub data Event : Type 0 where
  arrives leaves : ℕ → Event

unfoldable pub serve_one : Event → TcpServer → Result (TcpServer × List Effect)
serve_one (arrives p) w = new_connection w.thread w p
serve_one (leaves p) w = remove_connection_in_loop w.thread w p

unfoldable pub serve : List Event → TcpServer → Result (TcpServer × List Effect)
serve [] w = ok (w, [])
serve (e ∷ es) w = serve_one e w >>= λ r. serve es r.0 >>= λ s. ok (s.0, r.1 ++ s.1)

record IsServing (w : TcpServer) : Type 0 where
  named : IsNamed w
  same_thread : w.pool.thread ≡ w.thread
  in_turn : InTurn w.pool

-- One event: no fault, one number taken at most, and the entries go with the effects.
record Served (w w' : TcpServer) (out : List Effect) : Type 0 where
  serving : IsServing w'
  numbers : w'.next_conn_id ≤ w.next_conn_id + 1
  entries : length w'.connects + destroyed out ≡ length w.connects + established out

serve_one_ok :
    (e : Event) (w : TcpServer)
    → IsServing w
    → w.next_conn_id < 2 ^ 31
    → (w' : TcpServer) × (out : List Effect) × (serve_one e w ≡ ok (w', out)) × Served w w' out
unfolding serve_one
serve_one_ok (arrives p) w v h =
    let (loop, pool, g, t, same) = get_next_loop-InTurn w.pool v.in_turn in
    let here = ap (λ t. get_next_loop t w.pool) (sym v.same_thread) ∙ g in
    let (p', n, l, back) = new_connection-IsNamed w p loop pool here h v.named in
    (
      with_connection w p loop pool,
      runs_established loop p ∷ [],
      p',
      record {
        serving = record { named = n; same_thread = same ∙ v.same_thread; in_turn = t };
        numbers = omega arith;
        entries = omega (arith, l);
      },
    )
serve_one_ok (leaves p) w v h =
    let (es, q, n, none_new, l) = remove_connection-IsNamed w p v.named in
    (
      without w p,
      es,
      q,
      record {
        serving = record { named = n; same_thread = v.same_thread; in_turn = v.in_turn };
        numbers = omega arith;
        entries = omega (arith, l, none_new);
      },
    )

established-append :
    (xs ys : List Effect) → established (xs ++ ys) ≡ established xs + established ys
established-append [] ys = omega arith
established-append (runs_established l p ∷ xs) ys = omega (arith, established-append xs ys)
established-append (queues_destory l p ∷ xs) ys = established-append xs ys
established-append (queues_removal p ∷ xs) ys = established-append xs ys
established-append (runs_listen ∷ xs) ys = established-append xs ys

destroyed-append : (xs ys : List Effect) → destroyed (xs ++ ys) ≡ destroyed xs + destroyed ys
destroyed-append [] ys = omega arith
destroyed-append (runs_established l p ∷ xs) ys = destroyed-append xs ys
destroyed-append (queues_destory l p ∷ xs) ys = omega (arith, destroyed-append xs ys)
destroyed-append (queues_removal p ∷ xs) ys = destroyed-append xs ys
destroyed-append (runs_listen ∷ xs) ys = destroyed-append xs ys

serve_ok :
    (es : List Event) (w : TcpServer)
    → IsServing w
    → w.next_conn_id + length es < 2 ^ 31
    → (w' : TcpServer) × (out : List Effect) × (serve es w ≡ ok (w', out))
      × IsServing w'
      × (length w'.connects + destroyed out ≡ length w.connects + established out)
unfolding serve
serve_ok [] w v h = (w, [], refl, v, refl)
serve_ok (e ∷ es) w v h =
    let (w1, out1, p, s) = serve_one_ok e w v (omega arith) in
    let (w2, out2, q, v2, n) = serve_ok es w1 s.serving (omega (arith, s.numbers)) in
    (
      w2,
      out1 ++ out2,
      rw (p, q),
      v2,
      omega (arith, n, s.entries, established-append out1 out2, destroyed-append out1 out2),
    )

-- `start` of a new server, for any number of threads.
started_ok :
    (thread base_loop threads : ℕ) (host : List ℕ) (addr : NetAddress) (start_loop : ℕ → ℕ)
    → (w : TcpServer) × (start thread start_loop
          (set_thread_num (new_server thread base_loop host addr) threads)
        ≡ ok (w, runs_listen ∷ []))
      × IsServing w
      × (w.next_conn_id ≡ 1)
      × (w.connects ≡ [])
unfolding start start_pool Pool.start
started_ok thread base_loop threads host addr start_loop =
    let loops = start_loops start_loop 0 threads [] in
    let w0 = set_thread_num (new_server thread base_loop host addr) threads in
    (
      record w0 { started = true; pool = record w0.pool { started = true; loops = loops } },
      rw (==_refl thread),
      record { named = record { older = tt }; same_thread = refl; in_turn = ground arith },
      refl,
      refl,
    )

-- A server from its constructor on, with any number of threads set before `start`: while fewer than
-- 2^31 - 1 connections come and go in its loop, no call fails, and its map has as many entries as
-- connections were established and not destroyed.
pub start-serve_ok :
    (thread base_loop threads : ℕ) (host : List ℕ) (addr : NetAddress) (start_loop : ℕ → ℕ)
    (es : List Event)
    → length es + 1 < 2 ^ 31
    → (w : TcpServer) × (out : List Effect) × ((start thread start_loop
            (set_thread_num (new_server thread base_loop host addr) threads)
          >>= λ r. serve es r.0)
        ≡ ok (w, out))
      × (length w.connects + destroyed out ≡ established out)
start-serve_ok thread base_loop threads host addr start_loop es h =
    let (w, p, v, i, c) = started_ok thread base_loop threads host addr start_loop in
    let (w', out, q, v', n) = serve_ok es w v (omega (arith, i)) in
    (w', out, rw (p, q), omega (arith, n, ap length c))
