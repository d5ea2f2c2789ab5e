-- ===== src/Timers/Cancel.antt =====
-- timerQueue.cpp: `addTimer` and `cancel`.
use tcp_net_library.Base.{ℕ, ◌+◌, ◌≡◌, Bool, length, none, some, if◌then◌else◌, ==_refl, ok, ◌>>=◌}
use tcp_net_library.Reactor.Poller.{update_at}
use tcp_net_library.Timers.{
  TimerQueue, insert, add_timer_inloop, add_timer, cancel_in_loop, new_timer, earliest_changed,
  set_insert,
}
use tcp_net_library.Timers.Sets.{Differs, set_insert-Added}

-- The address is in neither set.
pub record IsFresh (w : TimerQueue) (p when : ℕ) : Type 0 where
  pub timers : Differs (when, p) w.timers
  pub active : Differs (p, w.created + 1) w.active

-- The queue with the new timer.
abbrev pub queued : TimerQueue → ℕ → ℕ → Bool → ℕ → TimerQueue
queued w p when repeat delta = record (new_timer w p when repeat delta) {
  timers = (set_insert (when, p) w.timers).0;
  active = (set_insert (p, w.created + 1) w.active).0;
}

-- `addTimer` at a fresh address enters the timer, arms the descriptor exactly where the new timer is
-- the earliest, and returns the address with the number of timers created so far.
pub add_timer_ok :
    (w : TimerQueue) (p when : ℕ) (repeat : Bool) (delta : ℕ)
    → IsFresh w p when
    → add_timer w.thread w p when repeat delta
      ≡ ok (
        queued w p when repeat delta,
        (if earliest_changed when w.timers then some when else none),
        (p, w.created + 1),
      )
unfolding add_timer add_timer_inloop insert
add_timer_ok w p when repeat delta f =
    let t = set_insert-Added (when, p) w.timers f.timers in
    let a = set_insert-Added (p, w.created + 1) w.active f.active in
    rw (==_refl w.thread, ==_refl p, t.new, a.new)

-- `cancel` with the id that `addTimer` has just returned takes the timer out of both sets, deletes
-- it, and leaves the rest of the queue as it was before the two calls, but for the number of timers
-- created.
pub add-cancel :
    (w : TimerQueue) (p when : ℕ) (repeat : Bool) (delta : ℕ)
    → IsFresh w p when
    → length w.timers ≡ length w.active
    → (add_timer w.thread w p when repeat delta >>= λ r. cancel_in_loop w.thread r.0 r.2)
      ≡ ok (record w {
        heap = update_at (new_timer w p when repeat delta).heap p none;
        created = w.created + 1;
      })
unfolding cancel_in_loop
add-cancel w p when repeat delta f l =
    let t = set_insert-Added (when, p) w.timers f.timers in
    let a = set_insert-Added (p, w.created + 1) w.active f.active in
    rw (
      add_timer_ok w p when repeat delta f,
      ==_refl w.thread,
      t.longer,
      a.longer,
      l,
      ==_refl (length w.active + 1),
      a.there,
      ==_refl p,
      t.back,
      a.back,
    )
