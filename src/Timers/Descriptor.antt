-- ===== src/Timers/Descriptor.antt =====
-- timerQueue.cpp: the descriptor of a queue, and the queue's destructor.
use tcp_net_library.Base.{
  ℕ, ◌≡◌, refl, sym, ap, ==_refl, ◌∙◌, Bool, true, List, [], ◌∷◌, arith, Option, none,
  if◌then◌else◌, Bool-cases, inl, inr,
}
use tcp_net_library.Time.{TimeStamp, TimeSpec, how_much_time_from_now}
use tcp_net_library.Reactor.Poller.{update_at}
use tcp_net_library.Timers.{set_has, Pair, Timer, TimerQueue}
use tcp_net_library.Timers.Algebra.{at_address, has-at_address, at_address-has}
use tcp_net_library.Timers.Exact.{IsExact}

-- `resetTimerfd`: the new value of the descriptor.
abbrev pub reset_timerfd : TimeStamp → TimeStamp → TimeSpec
reset_timerfd expiration present = how_much_time_from_now expiration present

-- The loop of the destructor.
unfoldable pub delete_all : List Pair → (ℕ → Option Timer) → ℕ → Option Timer
delete_all [] heap = heap
delete_all (e ∷ es) heap = delete_all es (update_at heap e.1 none)

delete_all_lem :
    (es : List Pair) (heap : ℕ → Option Timer) (p : ℕ)
    → delete_all es heap p ≡ (if at_address p es then none else heap p)
unfolding delete_all
delete_all_lem [] heap p = refl
delete_all_lem (e ∷ es) heap p = delete_all_lem es (update_at heap e.1 none) p ∙ ground arith

waiting_address :
    (w : TimerQueue) (on : ℕ → Bool) (p : ℕ) → IsExact w on → at_address p w.timers ≡ on p
waiting_address w on p v = elim (Bool-cases (on p)) [
  | inl o ↦
      let (t, l) = v.alive p o in
      let there : set_has (t.expiration, p) w.timers ≡ true =
        rw (v.timers t.expiration p, o, l, ==_refl t.expiration) in
      has-at_address t.expiration p w.timers there ∙ sym o
  | inr o ↦ elim (Bool-cases (at_address p w.timers)) [
    | inl a ↦ let (t, k) = at_address-has p w.timers a in absurd (cc (k, rw o at (v.timers t p)))
    | inr a ↦ a ∙ sym o
  ]
]

-- The destructor of a queue whose sets hold exactly the timers at the addresses of `on` deletes those
-- and no others.
delete_all_exact :
    (w : TimerQueue) (on : ℕ → Bool) (p : ℕ)
    → IsExact w on
    → delete_all w.timers w.heap p ≡ (if on p then none else w.heap p)
delete_all_exact w on p v =
    delete_all_lem w.timers w.heap p
    ∙ ap (λ b. if b then none else w.heap p) (waiting_address w on p v)
