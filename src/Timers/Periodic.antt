-- ===== src/Timers/Periodic.antt =====
-- eventLoop.cpp: `runAt`, `runAfter`, `runEvery` and `cancel`, in the loop's own thread; and a timer
-- of `runEvery`, as the descriptor fires again and again.
use tcp_net_library.Base.{
  ◌≤◌, fault, assert_failed, ℕ, ◌+◌, ◌<◌, ◌≡◌, refl, ap, arith, sym, subst, ◌∙◌, Bool, true, false,
  not, ◌&&◌, ◌||◌, List, [], ◌∷◌, length, Option, some, ◌==◌, if◌then◌else◌, Result, ok, ◌>>=◌,
  ==_refl,
}
use tcp_net_library.Timers.{
  Pair, Timer, TimerQueue, Armed, uintptr_max, set_has, set_insert, created_elsewhere, add_timer,
  cancel_in_loop, handle_read,
}
use tcp_net_library.Timers.Due.{IsSorted, AllSmall, AllDistinct}
use tcp_net_library.Timers.Sets.{Differs}
use tcp_net_library.Timers.Expire.{get_expired_fault}
use tcp_net_library.Timers.Cancel.{IsFresh, queued, add_timer_ok}
use tcp_net_library.Timers.Exact.{IsExact, is_due}
use tcp_net_library.Timers.Again.{stays, renewed, insert-IsExact}
use tcp_net_library.Timers.Fires.{cancels_itself, handle_read-Fired}

-- The intervals are those in microseconds that `addTime` makes.
abbrev pub run_at : ℕ → TimerQueue → ℕ → ℕ → Result (TimerQueue × Armed × Pair)
run_at caller w p time = add_timer caller w p time false 0

abbrev pub run_after : ℕ → TimerQueue → ℕ → ℕ → ℕ → Result (TimerQueue × Armed × Pair)
run_after caller w p now delay = run_at caller w p (now + delay)

-- `positive` says that the interval is above 0.
abbrev pub run_every : ℕ → TimerQueue → ℕ → ℕ → Bool → ℕ → Result (TimerQueue × Armed × Pair)
run_every caller w p now positive interval = add_timer caller w p (now + interval) positive interval

abbrev pub cancel : ℕ → TimerQueue → Pair → Result TimerQueue
cancel = cancel_in_loop

-- The descriptor fires at each of the times.
abbrev pub firings : (ℕ → Bool) → List ℕ → TimerQueue → Result TimerQueue
firings stop [] w = ok w
firings stop (now ∷ nows) w =
    handle_read w.thread (cancels_itself stop) w now >>= λ r. firings stop nows r.0

-- A repeating timer at `p` waits in both sets.
pub record Waits (w : TimerQueue) (p : ℕ) : Type 0 where
  pub timer : Timer
  pub live : w.heap p ≡ some timer
  pub again : timer.repeat ≡ true
  pub queued : set_has (timer.expiration, p) w.timers ≡ true
  pub active : set_has (p, w.created) w.active ≡ true

-- What is left of a repeating timer that no callback cancels.
repeating :
    (now : ℕ) (on stop due : Bool) (o : Option Timer) (t : Timer)
    → on ≡ true
    → stop ≡ false
    → o ≡ some t
    → t.repeat ≡ true
    → ((on && (not due || stays stop o)) ≡ true)
      × ((t' : Timer) × ((if on && due then renewed stop now o else o) ≡ some t')
          × (t'.repeat ≡ true))
repeating now on stop true o t e s l a =
    (rw (e, l, a, s), (record t { expiration = now + t.delta }, rw (e, s, l, a), a))
repeating now on stop false o t e s l a = (rw e, (t, rw (e, l), a))

firings-Waits :
    (w : TimerQueue) (on stop : ℕ → Bool) (p : ℕ) (t : Timer) (nows : List ℕ)
    → IsExact w on
    → on p ≡ true
    → stop p ≡ false
    → w.heap p ≡ some t
    → t.repeat ≡ true
    → (w' : TimerQueue) × (firings stop nows w ≡ ok w') × Waits w' p
firings-Waits w on stop p t [] v o s l a = (
  w,
  refl,
  record {
    timer = t;
    live = l;
    again = a;
    queued = rw (v.timers t.expiration p, o, l, ==_refl t.expiration);
    active = rw (v.active p w.created, o, ==_refl w.created);
  },
)
firings-Waits w on stop p t (now ∷ nows) v o s l a =
    let (w1, e, f) = handle_read-Fired w on stop now v in
    let (o', (t', r, a')) =
      repeating now (on p) (stop p) (is_due now (w.heap p)) (w.heap p) t o s l a in
    let (w', q, k) =
      firings-Waits w1 (λ p. on p && (not (is_due now (w.heap p)) || stays (stop p) (w.heap p)))
        stop p t' nows f.exact o' s (f.heap p ∙ r) a' in
    (w', rw (e, q), k)

empty-IsExact :
    (w : TimerQueue)
    → w.timers ≡ []
    → w.active ≡ []
    → IsExact (record w { created = w.created + 1 }) (λ q. false)
unfolding set_has
empty-IsExact w t a = record {
  sorted = subst IsSorted (sym t) tt;
  sorted_active = subst IsSorted (sym a) tt;
  small = subst AllSmall (sym t) tt;
  distinct = subst AllDistinct (sym t) tt;
  same_size = ap length t ∙ ap length (sym a);
  timers = λ u p. ap (set_has (u, p)) t;
  active = λ p n. ap (set_has (p, n)) a;
  alive = λ p h. absurd (cc h);
}

-- On a queue with no timers, a timer of `runEvery` with an interval above 0 and a callback that does
-- nothing to the queue is never lost while no other timer is created, by a callback or anywhere in the
-- process: however often and whenever the descriptor fires, no call fails, and the timer waits in
-- both sets at the end.
pub run_every-Waits :
    (w : TimerQueue) (stop : ℕ → Bool) (p now interval : ℕ) (nows : List ℕ)
    → w.timers ≡ []
    → w.active ≡ []
    → p < uintptr_max
    → stop p ≡ false
    → (w' : TimerQueue) × ((run_every w.thread w p now true interval >>= λ r. firings stop nows r.0)
        ≡ ok w')
      × Waits w' p
run_every-Waits w stop p now interval nows et ea small s =
    let t : Timer = record {
      expiration = now + interval;
      repeat = true;
      delta = interval;
      sequence = w.created;
    } in
    let fresh : IsFresh w p (now + interval) = record {
      timers = subst (Differs (now + interval, p)) (sym et) tt;
      active = subst (Differs (p, w.created + 1)) (sym ea) tt;
    } in
    let v =
      insert-IsExact (record w { created = w.created + 1 }) (λ q. false) p t (empty-IsExact w et ea)
        refl small in
    let (w', e, k) =
      firings-Waits (queued w p (now + interval) true interval)
        (λ q. if q == p then true else false) stop p t nows v (rw (==_refl p)) s (rw (==_refl p))
        refl in
    (w', rw (add_timer_ok w p (now + interval) true interval fresh) e, k)

-- On a queue with no timers, after `runEvery` and the creation of a timer by any other queue of the
-- process: the first time that the descriptor fires at or after the expiry, `handleRead` fails the
-- assertion of `getExpired`, whatever the callbacks are.
pub run_every-created_elsewhere :
    (w : TimerQueue) (callback : ℕ → TimerQueue → Result TimerQueue) (p now interval more at : ℕ)
    → w.timers ≡ []
    → w.active ≡ []
    → p < uintptr_max
    → 0 < more
    → now + interval ≤ at
    → (run_every w.thread w p now true interval >>= λ r.
        handle_read w.thread callback (created_elsewhere r.0 more) at)
      ≡ fault assert_failed
unfolding handle_read set_insert set_has
run_every-created_elsewhere w callback p now interval more at et ea small m l =
    let fresh : IsFresh w p (now + interval) = record {
      timers = subst (Differs (now + interval, p)) (sym et) tt;
      active = subst (Differs (p, w.created + 1)) (sym ea) tt;
    } in
    let q = created_elsewhere (queued w p (now + interval) true interval) more in
    let one : q.timers ≡ (now + interval, p) ∷ [] = rw et in
    let stale : set_has (p, q.created) q.active ≡ false = rw ea (ground arith) in
    rw (
      add_timer_ok w p (now + interval) true interval fresh,
      ==_refl w.thread,
      get_expired_fault q at (now + interval) p [] one l small stale,
    )
