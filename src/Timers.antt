-- ===== src/Timers.antt =====
-- timer.h, timer.cpp, timerQueue.h and timerQueue.cpp: the timers of one loop.
-- A `Timer*` is an address and the objects stand in `heap`; times are microseconds. The `double`
-- interval comes as what the code reads of it: whether it is above 0, and the microseconds that
-- `addTime` makes of it. A `std::set` of pairs is a list in the pairs' order. What arms the timer's
-- descriptor is returned; the callbacks are a parameter, and may call the queue again.
pub mod Sets
pub mod Cancel
pub mod Expire
pub mod Due
pub mod Algebra
pub mod Current
pub mod Exact
pub mod Again
pub mod Renewal
pub mod Fires
pub mod Periodic
pub mod Descriptor
use tcp_net_library.Base.{
  ℕ, ◌+◌, ◌-◌, ◌<◌, Bool, true, false, not, ◌&&◌, ◌||◌, List, [], ◌∷◌, ◌++◌, length, Option, none,
  some, ltb, ◌==◌, if◌then◌else◌, Result, ok, fault, assert, ◌>>=◌, ◌>>◌,
}
use tcp_net_library.Reactor.Poller.{assert_in_loop, update_at, or_fault}

abbrev pub Pair : Type 0
Pair = ℕ × ℕ

-- `operator<` of `std::pair`.
abbrev pub pair_lt : Pair → Pair → Bool
pair_lt x y = ltb x.0 y.0 || (x.0 == y.0 && ltb x.1 y.1)

abbrev pub pair_eq : Pair → Pair → Bool
pair_eq x y = x.0 == y.0 && x.1 == y.1

-- `std::set::insert`: the set, and whether the element is new.
unfoldable pub set_insert : Pair → List Pair → List Pair × Bool
set_insert x [] = (x ∷ [], true)
set_insert x (y ∷ ys) =
    let rest = set_insert x ys in
    if pair_lt x y
    then (x ∷ y ∷ ys, true)
    else if pair_lt y x
    then (y ∷ rest.0, rest.1)
    else (y ∷ ys, false)

-- `std::set::erase`: the set, and how many elements went.
unfoldable pub set_erase : Pair → List Pair → List Pair × ℕ
set_erase x [] = ([], 0)
set_erase x (y ∷ ys) =
    let rest = set_erase x ys in if pair_eq x y then (ys, 1) else (y ∷ rest.0, rest.1)

-- `find(x) != end()`
unfoldable pub set_has : Pair → List Pair → Bool
set_has x [] = false
set_has x (y ∷ ys) = let rest = set_has x ys in if pair_eq x y then true else rest

-- The elements before `lower_bound(x)`, and those from it on.
unfoldable pub lower_part : Pair → List Pair → List Pair × List Pair
lower_part x [] = ([], [])
lower_part x (y ∷ ys) =
    let rest = lower_part x ys in if pair_lt y x then (y ∷ rest.0, rest.1) else ([], y ∷ ys)

pub record Timer : Type 0 where
  pub expiration : ℕ
  pub repeat : Bool
  pub delta : ℕ
  pub sequence : ℕ

-- `created` is `Timer::TimerCreated_`, one count for the whole process: the timers of other queues
-- raise it as well (`created_elsewhere`).
pub record TimerQueue : Type 0 where
  pub thread : ℕ
  pub timers : List Pair
  pub active : List Pair
  pub canceling : List Pair
  pub calling_expired : Bool
  pub heap : ℕ → Option Timer
  pub created : ℕ

-- Other queues of the process create `n` timers.
abbrev pub created_elsewhere : TimerQueue → ℕ → TimerQueue
created_elsewhere w n = record w { created = w.created + n }

-- The time that the descriptor is armed for, where it is.
abbrev pub Armed : Type 0
Armed = Option ℕ

abbrev pub earliest_changed : ℕ → List Pair → Bool
earliest_changed when [] = true
earliest_changed when (e ∷ es) = ltb when e.0

-- `restart`: 0 is the invalid time.
abbrev pub restart : Timer → ℕ → Timer
restart t now = record t { expiration = if t.repeat then now + t.delta else 0 }

-- The active set keeps a timer with the number of timers created so far, not with its own.
unfoldable pub insert : TimerQueue → ℕ → Result (TimerQueue × Bool)
insert w p = or_fault (w.heap p) >>= λ t.
    let timers = set_insert (t.expiration, p) w.timers in
    let active = set_insert (p, w.created) w.active in
    assert timers.1
    >> (assert active.1
        >> ok (
          record w { timers = timers.0; active = active.0 },
          earliest_changed t.expiration w.timers,
        ))

unfoldable pub add_timer_inloop : ℕ → TimerQueue → ℕ → Result (TimerQueue × Armed)
add_timer_inloop caller w p =
    assert_in_loop w.thread caller
    >> (insert w p >>= λ r.
        or_fault (w.heap p) >>= λ t. ok (r.0, if r.1 then some t.expiration else none))

-- The constructor of the timer, at the address `p`.
abbrev pub new_timer : TimerQueue → ℕ → ℕ → Bool → ℕ → TimerQueue
new_timer w p when repeat delta = record w {
  heap =
      update_at w.heap p
        (some (record { expiration = when; repeat = repeat; delta = delta; sequence = w.created }));
  created = w.created + 1;
}

-- `addTimer` in the loop's thread, with the id that it returns.
unfoldable pub add_timer : ℕ → TimerQueue → ℕ → ℕ → Bool → ℕ → Result (TimerQueue × Armed × Pair)
add_timer caller w p when repeat delta =
    add_timer_inloop caller (new_timer w p when repeat delta) p >>= λ r.
    ok (r.0, r.1, (p, r.0.created))

abbrev delete : TimerQueue → ℕ → TimerQueue
delete w p = record w { heap = update_at w.heap p none }

unfoldable pub cancel_in_loop : ℕ → TimerQueue → Pair → Result TimerQueue
cancel_in_loop caller w id =
    assert_in_loop w.thread caller
    >> (assert (length w.timers == length w.active)
        >> (if set_has id w.active
            then (or_fault (w.heap id.0) >>= λ t.
                let timers = set_erase (t.expiration, id.0) w.timers in
                assert (timers.1 == 1)
                >> ok (record (delete w id.0) {
                  timers = timers.0;
                  active = (set_erase id w.active).0;
                }))
            else if w.calling_expired
            then ok (record w { canceling = (set_insert id w.canceling).0 })
            else ok w))

-- The loop of `getExpired` over the expired timers.
unfoldable pub erase_active : ℕ → List Pair → List Pair → Result (List Pair)
erase_active created [] active = ok active
erase_active created (e ∷ es) active =
    assert ((set_erase (e.1, created) active).1 == 1)
    >> erase_active created es (set_erase (e.1, created) active).0

abbrev pub after_now : ℕ → List Pair → Bool
after_now now [] = true
after_now now (e ∷ es) = ltb now e.0

-- `reinterpret_cast<Timer*>(UINTPTR_MAX)`
abbrev pub uintptr_max : ℕ
uintptr_max = 0xffffffffffffffff

unfoldable pub get_expired : TimerQueue → ℕ → Result (List Pair × TimerQueue)
get_expired w now =
    let parts = lower_part (now, uintptr_max) w.timers in
    assert (after_now now parts.1)
    >> (erase_active w.created parts.0 w.active >>= λ active.
        ok (parts.0, record w { timers = parts.1; active = active }))

-- One turn of the loop of `reset`.
unfoldable pub reset_one : TimerQueue → ℕ → ℕ → Result TimerQueue
reset_one w p now = or_fault (w.heap p) >>= λ t.
    if t.repeat && not (set_has (p, w.created) w.canceling)
    then (insert (record w { heap = update_at w.heap p (some (restart t now)) }) p >>= λ r. ok r.0)
    else ok (delete w p)

unfoldable pub reset_all : TimerQueue → List Pair → ℕ → Result TimerQueue
reset_all w [] now = ok w
reset_all w (e ∷ es) now = reset_one w e.1 now >>= λ w'. reset_all w' es now

-- The next expiry, where it is valid.
abbrev pub next_expire : List Pair → Armed
next_expire [] = none
next_expire (e ∷ es) = if ltb 0 e.0 then some e.0 else none

unfoldable pub reset : TimerQueue → List Pair → ℕ → Result (TimerQueue × Armed)
reset w expire now = reset_all w expire now >>= λ w'. ok (w', next_expire w'.timers)

-- The callbacks of the expired timers, in order.
unfoldable pub run_all :
    (ℕ → TimerQueue → Result TimerQueue) → List Pair → TimerQueue → Result TimerQueue
run_all callback [] w = ok w
run_all callback (e ∷ es) w =
    or_fault (w.heap e.1) >>= λ t. callback e.1 w >>= λ w'. run_all callback es w'

unfoldable pub handle_read :
    ℕ → (ℕ → TimerQueue → Result TimerQueue) → TimerQueue → ℕ → Result (TimerQueue × Armed)
handle_read caller callback w now =
    assert_in_loop w.thread caller
    >> (get_expired w now >>= λ r.
        run_all callback r.0 (record r.1 { calling_expired = true; canceling = [] }) >>= λ w'.
        reset (record w' { calling_expired = false }) r.0 now)
