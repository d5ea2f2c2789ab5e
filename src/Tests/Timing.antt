-- ===== src/Tests/Timing.antt =====
-- The timers' theorems at small queues.
use tcp_net_library.Base.{
  ℕ, Bool, ◌==◌, if◌then◌else◌, ◌≡◌, refl, true, false, [], ◌∷◌, arith, none, ok, fault,
  assert_failed, ◌>>=◌,
}
use tcp_net_library.Reactor.Poller.{update_at}
use tcp_net_library.Timers.{
  Timer, TimerQueue, handle_read, next_expire, set_has, add_timer, cancel_in_loop, get_expired,
  new_timer,
}
use tcp_net_library.Timers.Cancel.{IsFresh, add-cancel}
use tcp_net_library.Timers.{created_elsewhere}
use tcp_net_library.Timers.Exact.{IsExact}
use tcp_net_library.Timers.Again.{with_timer, insert-IsExact}
use tcp_net_library.Timers.Fires.{Fired, cancels_itself, handle_read-Fired}
use tcp_net_library.Timers.Periodic.{
  run_every, firings, Waits, run_every-Waits, run_every-created_elsewhere,
}
use tcp_net_library.Timers.Expire.{add-add-get_expired}

abbrev idle : TimerQueue
idle = record {
  thread = 1;
  timers = [];
  active = [];
  canceling = [];
  calling_expired = false;
  heap = λ p. none;
  created = 4;
}

-- The timer at 64 expires at 500.
abbrev waiting : TimerQueue
waiting = record idle { timers = (500, 64) ∷ []; active = (64, 3) ∷ [] }

fresh : IsFresh waiting 96 200
fresh = record { timers = (refl, tt); active = (refl, tt) }

add-cancel_example :
    (add_timer 1 waiting 96 200 true 50 >>= λ r. cancel_in_loop 1 r.0 r.2)
    ≡ ok (record waiting {
      heap = update_at (new_timer waiting 96 200 true 50).heap 96 none;
      created = 5;
    })
add-cancel_example = add-cancel waiting 96 200 true 50 fresh refl

add-add-get_expired_example :
    (add_timer 1 idle 64 100 false 0 >>= λ r.
    add_timer r.0.thread r.0 96 200 false 0 >>= λ s. get_expired s.0 150)
    ≡ fault assert_failed
add-add-get_expired_example =
    add-add-get_expired idle 64 96 100 200 150 refl refl (omega arith) (omega arith) (omega arith)
      (omega arith)

-- Both expire before 400; the first cancels itself.
abbrev short : Timer
short = record { expiration = 300; repeat = true; delta = 500; sequence = 4 }

abbrev long : Timer
long = record { expiration = 350; repeat = true; delta = 900; sequence = 4 }

abbrev at_two : ℕ → Bool
at_two q = if q == 96 then true else if q == 64 then true else false

two-IsExact : IsExact (with_timer (with_timer idle 64 short) 96 long) at_two
unfolding set_has
two-IsExact =
    insert-IsExact (with_timer idle 64 short) (λ q. if q == 64 then true else false) 96 long
      (insert-IsExact idle (λ q. false) 64 short
        (record {
          sorted = tt;
          sorted_active = tt;
          small = tt;
          distinct = tt;
          same_size = refl;
          timers = λ t p. refl;
          active = λ p n. refl;
          alive = λ p h. absurd (cc h);
        })
        refl (omega arith))
      refl (omega arith)

handle_read-Fired_example :
    (w : TimerQueue) × (handle_read 1
        (cancels_itself (λ q. q == 64))
        (with_timer (with_timer idle 64 short) 96 long)
        400
      ≡ ok (w, next_expire w.timers))
    × Fired (with_timer (with_timer idle 64 short) 96 long) w at_two (λ q. q == 64) 400
handle_read-Fired_example =
    handle_read-Fired (with_timer (with_timer idle 64 short) 96 long) at_two (λ q. q == 64) 400
      two-IsExact

run_every-Waits_example :
    (w : TimerQueue) × ((run_every 1 idle 64 100 true 50 >>= λ r.
    firings (λ q. false) (160 ∷ 150 ∷ 900 ∷ []) r.0)
      ≡ ok w)
    × Waits w 64
run_every-Waits_example =
    run_every-Waits idle (λ q. false) 64 100 50 (160 ∷ 150 ∷ 900 ∷ []) refl refl (omega arith) refl

run_every-created_elsewhere_example :
    (run_every 1 idle 64 100 true 50 >>= λ r.
    handle_read 1 (λ p u. ok u) (created_elsewhere r.0 1) 150)
    ≡ fault assert_failed
run_every-created_elsewhere_example =
    run_every-created_elsewhere idle (λ p u. ok u) 64 100 50 1 150 refl refl (omega arith)
      (omega arith) (omega arith)
