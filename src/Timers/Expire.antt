-- ===== src/Timers/Expire.antt =====
-- timerQueue.cpp: `getExpired`.
use tcp_net_library.Base.{
  ℕ, ◌+◌, ◌≡◌, ◌≢◌, ◌≤◌, ◌<◌, refl, true, false, List, [], ◌∷◌, arith, Bool-cases, inl, inr, fault,
  assert_failed, ◌>>=◌,
}
use tcp_net_library.Timers.{
  Pair, pair_lt, pair_eq, TimerQueue, set_insert, set_erase, set_has, lower_part, erase_active,
  after_now, uintptr_max, get_expired, add_timer,
}
use tcp_net_library.Timers.Sets.{Differs}
use tcp_net_library.Timers.Cancel.{IsFresh, queued, add_timer_ok}

set_erase_none : (x : Pair) (s : List Pair) → set_has x s ≡ false → (set_erase x s).1 ≡ 0
unfolding set_has set_erase
set_erase_none x [] h = refl
set_erase_none x (y ∷ ys) h = elim (Bool-cases (pair_eq x y)) [
  | inl e ↦ absurd (cc (rw e at h))
  | inr e ↦ rw e (set_erase_none x ys (rw e at h))
]

-- The first timer is due, and the active set has it with another number than the current one.
pub get_expired_fault :
    (w : TimerQueue) (now when p : ℕ) (rest : List Pair)
    → w.timers ≡ (when, p) ∷ rest
    → when ≤ now
    → p < uintptr_max
    → set_has (p, w.created) w.active ≡ false
    → get_expired w now ≡ fault assert_failed
unfolding get_expired lower_part erase_active
get_expired_fault w now when p rest e l small h =
    let due : pair_lt (when, p) (now, uintptr_max) ≡ true = ground arith in
    elim (Bool-cases (after_now now (lower_part (now, uintptr_max) rest).1)) [
      | inl a ↦ rw (e, due, a, set_erase_none (p, w.created) w.active h)
      | inr a ↦ rw (e, due, a)
    ]

one-Differs : (x y : Pair) → pair_eq y x ≡ false → Differs y (set_insert x []).0
unfolding set_insert
one-Differs x y h = (h, tt)

two_timers : (x y : Pair) → x.0 < y.0 → (set_insert y (set_insert x []).0).0 ≡ x ∷ y ∷ []
unfolding set_insert
two_timers x y h =
    let behind : pair_lt y x ≡ false = ground arith in
    let before : pair_lt x y ≡ true = ground arith in rw (behind, before)

-- Neither of two elements is a third pair.
two-set_has :
    (x y z : Pair)
    → pair_eq z x ≡ false
    → pair_eq z y ≡ false
    → set_has z (set_insert y (set_insert x []).0).0 ≡ false
unfolding set_insert set_has
two-set_has x y z hx hy = elim (Bool-cases (pair_lt y x)) [
  | inl k ↦ rw (k, hx, hy)
  | inr k ↦ elim (Bool-cases (pair_lt x y)) [ inl l ↦ rw (k, l, hx, hy) | inr l ↦ rw (k, l, hx) ]
]

-- Where a queue with no timers gets two, at different addresses, and only then the first comes due
-- before the second, `getExpired` fails its assertion: it looks the first timer up with the number of
-- the second.
pub add-add-get_expired :
    (w : TimerQueue) (p q a b now : ℕ)
    → w.timers ≡ []
    → w.active ≡ []
    → p ≢ q
    → p < uintptr_max
    → a < b
    → a ≤ now
    → (add_timer w.thread w p a false 0 >>= λ r.
        add_timer r.0.thread r.0 q b false 0 >>= λ s. get_expired s.0 now)
      ≡ fault assert_failed
add-add-get_expired w p q a b now et ea n small l d =
    let one = queued w p a false 0 in
    let two = queued one q b false 0 in
    let first : IsFresh w p a = record { timers = rw et tt; active = rw ea tt } in
    let fresh : IsFresh one q b = record {
      timers = rw et (one-Differs (a, p) (b, q) (ground arith));
      active = rw ea (one-Differs (p, w.created + 1) (q, w.created + 1 + 1) (ground arith));
    } in
    rw (add_timer_ok w p a false 0 first, add_timer_ok one q b false 0 fresh)
      (get_expired_fault two now a p ((b, q) ∷ []) (rw et (two_timers (a, p) (b, q) l)) d small (
        rw ea (
          two-set_has (p, w.created + 1) (q, w.created + 1 + 1) (p, w.created + 1 + 1)
            (ground arith) (ground arith))))
