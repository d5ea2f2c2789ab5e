-- ===== src/Net/Connector/Backoff.antt =====
-- connector.cpp: the delays of `retry`.
use native.Mathlib.Nat.{pow-suc}
use tcp_net_library.Base.{
  ℕ, zero, suc, ◌+◌, ◌*◌, ◌^◌, ◌≡◌, refl, ap, ◌∙◌, true, List, [], ◌∷◌, ◌++◌, arith, ok, ◌>>=◌,
}
use tcp_net_library.Net.Connector.{
  Connector, Effect, closes, starts_after, Step, disconnect, min, max_retry_delay, init_retry_delay,
  retry,
}

-- The attempts on `sockfd` fail `n` times.
unfoldable pub retries : ℕ → Connector → ℕ → Step
retries zero c sockfd = ok (c, [])
retries (suc n) c sockfd =
    retry c sockfd >>= λ r. retries n r.0 sockfd >>= λ s. ok (s.0, r.1 ++ s.1)

-- The delay after `k` failed attempts.
abbrev pub delay : ℕ → ℕ
delay k = min (init_retry_delay * 2 ^ k) max_retry_delay

-- What `n` failures ask for, from the failure `k` on.
unfoldable pub backoff : ℕ → ℕ → ℕ → List Effect
backoff sockfd k zero = []
backoff sockfd k (suc n) = closes sockfd ∷ starts_after (delay k) ∷ backoff sockfd (k + 1) n

doubled : (x y : ℕ) → y ≡ x * 2 → min (min (500 * x) 30000 * 2) 30000 ≡ min (500 * y) 30000
doubled x y h = ground arith

two_pow : (k : ℕ) → 2 ^ (k + 1) ≡ 2 ^ k * 2
two_pow k = let e : k + 1 ≡ suc k = omega arith in ap (λ t. 2 ^ t) e ∙ pow-suc 2 k

delay_step : (k : ℕ) → min (delay k * 2) max_retry_delay ≡ delay (k + 1)
delay_step k = doubled (2 ^ k) (2 ^ (k + 1)) (two_pow k)

retry_again :
    (k : ℕ) (c : Connector) (sockfd : ℕ)
    → c.connect ≡ true
    → c.status ≡ disconnect
    → c.retry_delay_ms ≡ delay k
    → retry c sockfd
      ≡ ok
          (record c { retry_delay_ms = delay (k + 1) }, closes sockfd ∷ starts_after (delay k) ∷ [])
unfolding retry
retry_again k c sockfd h s d = rw (h, d, ← s, delay_step k)

-- While the connector wants a connection, each failed attempt closes its socket and schedules the
-- next: the k-th after 500 ms doubled k times, but never more than 30 s.
pub retries_lem :
    (n k : ℕ) (c : Connector) (sockfd : ℕ)
    → c.connect ≡ true
    → c.status ≡ disconnect
    → c.retry_delay_ms ≡ delay k
    → retries n c sockfd ≡ ok (record c { retry_delay_ms = delay (k + n) }, backoff sockfd k n)
unfolding retries backoff
retries_lem zero k c sockfd h s d =
    ap (λ t. ok (record c { retry_delay_ms = t }, [])) (d ∙ ap delay (omega arith))
retries_lem (suc n) k c sockfd h s d =
    let e : k + 1 + n ≡ k + suc n = omega arith in
    rw (
      retry_again k c sockfd h s d,
      retries_lem n (k + 1) (record c { retry_delay_ms = delay (k + 1) }) sockfd h s refl,
      e,
    )
