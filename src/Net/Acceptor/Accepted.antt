-- ===== src/Net/Acceptor/Accepted.antt =====
-- acceptor.cpp: the connections that are handed over.
use tcp_net_library.Base.{
  ℕ, ◌≡◌, refl, ap, true, List, [], ◌∷◌, ◌++◌, negsuc, Result, ok, fault, fatal, Bool, false, ◌==◌,
  ◌||◌, ◌&&◌, if◌then◌else◌, Bool-cases, inl, inr, arith, ◌>>=◌, ==_refl,
}
use tcp_net_library.Net.Address.{NetAddress}
use tcp_net_library.Net.Socket.{AcceptAnswer, accepted, accept_failed, accept, is_transient}
use tcp_net_library.Net.Acceptor.{Acceptor, Effect, updates, new_connection, closes, handle_read}

-- The handler for each answer in turn, with all its effects.
unfoldable pub read_all : Acceptor → List AcceptAnswer → Result (List Effect)
read_all a [] = ok []
read_all a (answer ∷ answers) =
    handle_read a.thread a answer >>= λ es. read_all a answers >>= λ fs. ok (es ++ fs)

-- The connections that the user is given.
abbrev pub handed : List Effect → List (ℕ × NetAddress)
handed [] = []
handed (new_connection fd addr ∷ es) = (fd, addr) ∷ handed es
handed (updates n ∷ es) = handed es
handed (closes fd ∷ es) = handed es

-- The connections that the system has accepted.
abbrev pub accepts : List AcceptAnswer → List (ℕ × NetAddress)
accepts [] = []
accepts (accepted fd addr ∷ rest) = (fd, addr) ∷ accepts rest
accepts (accept_failed e ∷ rest) = accepts rest

-- What accept(2) says of a connection that is gone or not there yet, of a signal and of limits that
-- may pass: EPERM, EINTR, EAGAIN, EMFILE and EPROTO.
abbrev pub passing : List ℕ
passing = 1 ∷ 4 ∷ 11 ∷ 24 ∷ 71 ∷ []

abbrev pub among : ℕ → List ℕ → Bool
among n [] = false
among n (m ∷ ms) = n == m || among n ms

abbrev pub all_pass : List AcceptAnswer → Bool
all_pass [] = true
all_pass (accepted fd addr ∷ rest) = all_pass rest
all_pass (accept_failed n ∷ rest) = among n passing && all_pass rest

-- The effects of the answers, where none ends the process.
abbrev pub given : List AcceptAnswer → List Effect
given [] = []
given (accepted fd addr ∷ rest) = new_connection fd addr ∷ given rest
given (accept_failed n ∷ rest) = closes (negsuc 0) ∷ given rest

transient_iff : (n : ℕ) → is_transient n ≡ among n passing
transient_iff n = ground arith

-- However connections and errors alternate: an acceptor with a callback goes on exactly as long as
-- all errors are among those that may pass, and the process ends at another one. Where it goes on, it
-- hands over exactly the accepted connections with their peers' addresses, in order, and closes
-- nothing but the descriptor -1 of each failure.
pub read_all_ok :
    (a : Acceptor) (answers : List AcceptAnswer)
    → a.has_new_conn_callback ≡ true
    → (read_all a answers ≡ (if all_pass answers then ok (given answers) else fault fatal))
      × (handed (given answers) ≡ accepts answers)
unfolding read_all handle_read accept
read_all_ok a [] b = (refl, refl)
read_all_ok a (accepted fd addr ∷ rest) b =
    let (e, h) = read_all_ok a rest b in
    (
      elim (Bool-cases (all_pass rest)) [
        | inl t ↦ rw (==_refl a.thread, b, e, t)
        | inr t ↦ rw (==_refl a.thread, b, e, t)
      ],
      ap (◌∷◌ (fd, addr)) h,
    )
read_all_ok a (accept_failed n ∷ rest) b =
    let (e, h) = read_all_ok a rest b in
    (
      elim (Bool-cases (among n passing)) [
        | inl u ↦ elim (Bool-cases (all_pass rest)) [
          | inl t ↦ rw (==_refl a.thread, transient_iff n, u, e, t)
          | inr t ↦ rw (==_refl a.thread, transient_iff n, u, e, t)
        ]
        | inr u ↦ rw (==_refl a.thread, transient_iff n, u)
      ],
      h,
    )
