-- ===== src/Net/Server/Lifetime.antt =====
-- tcpServer.cpp: a connection from `newConnection` to `removeConnection`.
use tcp_net_library.Base.{
  ℕ, ◌+◌, ◌≡◌, refl, false, List, [], ◌∷◌, ==_refl, Bool-cases, inl, inr, ok, ◌>>=◌,
}
use tcp_net_library.Http.Text.{str_eq, str_eq_refl}
use tcp_net_library.Http.Map.{str_lt}
use tcp_net_library.Reactor.Poller.{update_at}
use tcp_net_library.Net.Pool.{Pool, get_next_loop}
use tcp_net_library.Net.Server.{
  TcpConnectMap, TcpServer, queues_destory, assign, erase, conn_name, new_connection,
  remove_connection_in_loop,
}

-- The name is no key.
abbrev pub Unused : List ℕ → TcpConnectMap → Type 0
Unused k [] = Unit {0}
Unused k ((j, w) ∷ m) = (str_eq j k ≡ false) × Unused k m

pub erase-Unused : (k : List ℕ) (m : TcpConnectMap) → Unused k m → erase k m ≡ (m, 0)
unfolding erase
erase-Unused k [] h = refl
erase-Unused k ((j, w) ∷ m) h = rw (h.0, erase-Unused k m h.1)

pub erase-assign :
    (k : List ℕ) (v : ℕ) (m : TcpConnectMap) → Unused k m → erase k (assign k v m) ≡ (m, 1)
unfolding assign erase
erase-assign k v [] h = rw (str_eq_refl k)
erase-assign k v ((j, w) ∷ m) h = elim (Bool-cases (str_lt k j)) [
  | inl l ↦ rw (h.0, l, str_eq_refl k)
  | inr l ↦ rw (h.0, l, h.0, erase-assign k v m h.1)
]

abbrev pub entered : TcpServer → ℕ → ℕ → Pool → TcpServer
entered w p loop pool = record w {
  pool = pool;
  next_conn_id = w.next_conn_id + 1;
  objects = update_at w.objects p (record { name = conn_name w; loop = loop });
}

remove_none :
    (w : TcpServer) (p : ℕ)
    → Unused (w.objects p).name w.connects
    → remove_connection_in_loop w.thread w p ≡ ok (w, [])
unfolding remove_connection_in_loop
remove_none w p h = rw (==_refl w.thread, erase-Unused (w.objects p).name w.connects h)

-- A connection that is entered under a name that no other has, and then removed twice: the first
-- removal queues its destruction, once, in the loop that the pool gave it, and leaves the others'
-- names as they were; the second changes nothing and asks for nothing.
new-remove-remove :
    (w : TcpServer) (p loop : ℕ) (pool : Pool)
    → get_next_loop w.thread w.pool ≡ ok (loop, pool)
    → Unused (conn_name w) w.connects
    → (new_connection w.thread w p >>= λ r. remove_connection_in_loop w.thread r.0 p)
        ≡ ok (entered w p loop pool, queues_destory loop p ∷ [])
      × (remove_connection_in_loop w.thread (entered w p loop pool) p
          ≡ ok (entered w p loop pool, []))
unfolding new_connection remove_connection_in_loop
new-remove-remove w p loop pool g h = (
  rw (==_refl w.thread, g, ==_refl p, erase-assign (conn_name w) p w.connects h, ==_refl w.thread),
  remove_none (entered w p loop pool) p (rw (==_refl p) h),
)
