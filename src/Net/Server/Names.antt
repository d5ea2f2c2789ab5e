-- ===== src/Net/Server/Names.antt =====
-- tcpServer.cpp: the names that `newConnection` makes.
use tcp_net_library.Base.{
  ℕ, ◌+◌, ◌^◌, ◌≤◌, ◌<◌, ◌≡◌, ◌≢◌, refl, ap, sym, ◌∙◌, false, List, [], ◌∷◌, ◌++◌, arith, length,
  drop, drop-append, take_all, length-decimal_from, value, value-decimal_from, pow10, decimal,
  ==_refl, ==_iff, ◌==◌, Bool-cases, inl, inr, ok,
}
use tcp_net_library.Http.Text.{str_eq, eq_of_str_eq}
use tcp_net_library.Http.Map.{str_lt}
use tcp_net_library.Http.Response.{printed}
use tcp_net_library.Net.Pool.{Pool, get_next_loop}
use tcp_net_library.Net.Server.{
  TcpConnectMap, TcpServer, Effect, runs_established, queues_destory, assign, erase, conn_name,
  new_connection, remove_connection_in_loop,
}
use tcp_net_library.Net.Server.Lifetime.{Unused, entered, erase-assign}

-- The name of the connection with the number `id`.
abbrev pub name_of : List ℕ → ℕ → List ℕ
name_of name id = name ++ printed (35 ∷ decimal id)

-- Every key is the name of a connection with a number below `next`.
abbrev pub AllOlder : List ℕ → ℕ → TcpConnectMap → Type 0
AllOlder name next [] = Unit {0}
AllOlder name next ((k, p) ∷ m) =
    ((id : ℕ) × (id < next) × (k ≡ name_of name id)) × AllOlder name next m

printed_all : (id : ℕ) → id < pow10 20 → printed (35 ∷ decimal id) ≡ 35 ∷ decimal id
printed_all id h =
    take_all 31 (35 ∷ decimal id)
      (omega (arith, length-decimal_from 20 20 id [] h (omega arith) (omega arith)))

name_of_inj :
    (name : List ℕ) (i j : ℕ)
    → i < pow10 20
    → j < pow10 20
    → name_of name i ≡ name_of name j
    → i ≡ j
name_of_inj name i j a b h =
    let tails : printed (35 ∷ decimal i) ≡ printed (35 ∷ decimal j) =
      sym (drop-append name _ (length name) refl)
      ∙ ap (drop (length name)) h
      ∙ drop-append name _ (length name) refl in
    let digits : decimal i ≡ decimal j =
      ap (drop 1) (sym (printed_all i a) ∙ tails ∙ printed_all j b) in
    sym (value-decimal_from 20 i [] a) ∙ ap (value 0) digits ∙ value-decimal_from 20 j [] b

str_eq_ne : (xs ys : List ℕ) → xs ≢ ys → str_eq xs ys ≡ false
str_eq_ne xs ys h = elim (Bool-cases (str_eq xs ys)) [
  | inl e ↦ absurd (h (eq_of_str_eq xs ys e))
  | inr e ↦ e
]

older-Unused :
    (name : List ℕ) (next : ℕ) (m : TcpConnectMap)
    → next < pow10 20
    → AllOlder name next m
    → Unused (name_of name next) m
older-Unused name next [] b h = tt
older-Unused name next ((k, p) ∷ m) b ((id, l, e), rest) = (
  str_eq_ne k (name_of name next)
      (λ q. absurd (omega (arith, name_of_inj name id next (omega arith) b (sym e ∙ q)))),
  older-Unused name next m b rest,
)

AllOlder-later :
    (name : List ℕ) (next : ℕ) (m : TcpConnectMap)
    → AllOlder name next m
    → AllOlder name (next + 1) m
AllOlder-later name next [] h = tt
AllOlder-later name next ((k, p) ∷ m) ((id, l, e), rest) =
    ((id, omega arith, e), AllOlder-later name next m rest)

AllOlder-assign :
    (name : List ℕ) (next p : ℕ) (m : TcpConnectMap)
    → Unused (name_of name next) m
    → AllOlder name next m
    → AllOlder name (next + 1) (assign (name_of name next) p m)
      × (length (assign (name_of name next) p m) ≡ length m + 1)
unfolding assign
AllOlder-assign name next p [] u h = (((next, omega arith, refl), tt), omega arith)
AllOlder-assign name next p ((k, q) ∷ m) u (here, rest) =
    let (o, n) = AllOlder-assign name next p m u.1 rest in
    let (id, l, e) = here in
    elim (Bool-cases (str_lt (name_of name next) k)) [
      | inl s ↦
          rw (u.0, s)
            (
              ((next, omega arith, refl), ((id, omega arith, e), AllOlder-later name next m rest)),
              omega arith,
            )
      | inr s ↦ rw (u.0, s) (((id, omega arith, e), o), omega arith)
    ]

AllOlder-erase :
    (name k : List ℕ) (next : ℕ) (m : TcpConnectMap)
    → AllOlder name next m
    → AllOlder name next (erase k m).0 × (length (erase k m).0 + (erase k m).1 ≡ length m)
unfolding erase
AllOlder-erase name k next [] h = (tt, omega arith)
AllOlder-erase name k next ((j, q) ∷ m) (here, rest) =
    let (o, n) = AllOlder-erase name k next m rest in
    elim (Bool-cases (str_eq j k)) [
      | inl s ↦ rw s (rest, omega arith)
      | inr s ↦ rw s ((here, o), omega arith)
    ]

erase_le : (k : List ℕ) (m : TcpConnectMap) → (erase k m).1 ≤ 1
unfolding erase
erase_le k [] = omega arith
erase_le k ((j, q) ∷ m) = ground (arith, erase_le k m)

-- The names that a server has given out are those of the numbers below the next one.
pub record IsNamed (w : TcpServer) : Type 0 where
  pub older : AllOlder w.name w.next_conn_id w.connects

-- The server with the new connection.
abbrev pub with_connection : TcpServer → ℕ → ℕ → Pool → TcpServer
with_connection w p loop pool = record (entered w p loop pool) {
  connects = assign (conn_name w) p w.connects;
}

-- While fewer than 2^31 connections were made, `newConnection` in the thread of the loop never takes
-- the name of a connection that is still there: it adds one entry and keeps the others, and the names
-- stay those of the numbers below the next one.
pub new_connection-IsNamed :
    (w : TcpServer) (p loop : ℕ) (pool : Pool)
    → get_next_loop w.thread w.pool ≡ ok (loop, pool)
    → w.next_conn_id < 2 ^ 31
    → IsNamed w
    → (new_connection w.thread w p
        ≡ ok (with_connection w p loop pool, runs_established loop p ∷ []))
      × IsNamed (with_connection w p loop pool)
      × (length (with_connection w p loop pool).connects ≡ length w.connects + 1)
      × (erase (conn_name w) (with_connection w p loop pool).connects ≡ (w.connects, 1))
unfolding new_connection
new_connection-IsNamed w p loop pool g h v =
    let u = older-Unused w.name w.next_conn_id w.connects (omega arith) v.older in
    let (o, n) = AllOlder-assign w.name w.next_conn_id p w.connects u v.older in
    (rw (==_refl w.thread, g), record { older = o }, n, erase-assign (conn_name w) p w.connects u)

not_zero : (n : ℕ) → (n == 0) ≡ false → 0 < n
not_zero n h = ground arith

-- The connections that were established, and those that were destroyed.
abbrev pub established : List Effect → ℕ
established [] = 0
established (runs_established loop p ∷ es) = established es + 1
established (_ ∷ es) = established es

abbrev pub destroyed : List Effect → ℕ
destroyed [] = 0
destroyed (queues_destory loop p ∷ es) = destroyed es + 1
destroyed (_ ∷ es) = destroyed es

-- The server without the name of the connection.
abbrev pub without : TcpServer → ℕ → TcpServer
without w p = record w { connects = (erase (w.objects p).name w.connects).0 }

-- The removal of a connection leaves the names as they are, but for one that goes at most.
pub remove_connection-IsNamed :
    (w : TcpServer) (p : ℕ)
    → IsNamed w
    → (es : List Effect) × (remove_connection_in_loop w.thread w p ≡ ok (without w p, es))
      × IsNamed (without w p)
      × (established es ≡ 0)
      × (length (without w p).connects + destroyed es ≡ length w.connects)
unfolding remove_connection_in_loop
remove_connection-IsNamed w p v =
    let k = (w.objects p).name in
    let (o, n) = AllOlder-erase w.name k w.next_conn_id w.connects v.older in
    elim (Bool-cases ((erase k w.connects).1 == 0)) [
      | inl s ↦ (
        [],
        rw (==_refl w.thread, s),
        record { older = o },
        refl,
        omega (arith, (==_iff _ _).0 s),
      )
      | inr s ↦
          let one : (erase k w.connects).1 ≡ 1 =
            omega (arith, erase_le k w.connects, not_zero _ s) in
          (
            queues_destory (w.objects p).loop p ∷ [],
            rw (==_refl w.thread, s),
            record { older = o },
            refl,
            omega arith,
          )
    ]
