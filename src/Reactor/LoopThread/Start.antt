-- ===== src/Reactor/LoopThread/Start.antt =====
-- eventLoopThread.cpp: `startLoop` against `threadFunc`.
use tcp_net_library.Base.{◌≡◌, refl, ap, Bool, true, false, arith}
use tcp_net_library.Reactor.LoopThread.{
  Owner, constructed, started, checking, sleeping, waking, has_loop, quitting, joining, joined,
  Child, unborn, constructing, locked, published, testing, polling, ended, Holder, nobody, by_owner,
  by_child, Threads, init, Step, starts, owner_locks, waits, wakes_up, locks_again, returns,
  child_locks, publishes, enters, polls, handles, ends, quits, writes, joins, Steps, here, later,
}

abbrev is_running : Child → Bool
is_running published = true
is_running testing = true
is_running polling = true
is_running ended = true
is_running _ = false

abbrev pub past_start : Owner → Bool
past_start has_loop = true
past_start quitting = true
past_start joining = true
past_start joined = true
past_start _ = false

pub record IsValid (s : Threads) : Type 0 where
  pub pointer : s.has_pointer ≡ is_running s.child
  pub born : s.owner ≡ constructed → s.child ≡ unborn
  pub owner_holds : s.owner ≡ checking → s.mtx ≡ by_owner
  pub child_holds : s.child ≡ locked → s.mtx ≡ by_child
  pub asleep : s.owner ≡ sleeping → s.has_pointer ≡ false
  pub owner_only : s.mtx ≡ by_owner → s.owner ≡ checking
  pub child_only : s.mtx ≡ by_child → s.child ≡ locked
  pub unstarted : s.child ≡ unborn → s.owner ≡ constructed
  pub set_before : past_start s.owner ≡ true → s.has_pointer ≡ true

init-IsValid : (flag : Bool) → IsValid (init flag)
init-IsValid flag = ground arith

step-IsValid : {s t : Threads} → Step s t → IsValid s → IsValid t
step-IsValid (starts h) v = ground arith
step-IsValid (owner_locks h m) v = ground arith
step-IsValid (waits h p) v = ground arith
step-IsValid (wakes_up h) v = ground arith
step-IsValid (locks_again h m) v = ground arith
step-IsValid (returns h p) v = ground arith
step-IsValid (child_locks h m) v = ground arith
step-IsValid (publishes h) v = ground arith
step-IsValid (enters h) v = ground arith
step-IsValid (polls h q) v = ground arith
step-IsValid (handles h) v = ground arith
step-IsValid (ends h q) v = ground arith
step-IsValid (quits h) v = ground arith
step-IsValid (writes h) v = ground arith
step-IsValid (joins h e) v = ground arith

pub steps-IsValid : {s t : Threads} → Steps s t → IsValid s → IsValid t
steps-IsValid here v = v
steps-IsValid (later ss h) v = step-IsValid h (steps-IsValid ss v)

first : {s t u : Threads} → Step s t → Steps t u → Steps s u
first h here = later here h
first h (later ss k) = later (first h ss) k

-- `startLoop` can still return.
pub Returns : Threads → Type 0
Returns s = (t : Threads) × Steps s t × (past_start t.owner ≡ true)

step_first : {s t : Threads} → Step s t → Returns t → Returns s
unfolding Returns
step_first h (u, ss, e) = (u, first h ss, e)

at_once : (s : Threads) → past_start s.owner ≡ true → Returns s
unfolding Returns
at_once s h = (s, here, h)

checking-Returns : (s : Threads) → s.owner ≡ checking → s.has_pointer ≡ true → Returns s
checking-Returns s h p =
    step_first (returns h p) (at_once (record s { owner = has_loop; mtx = nobody }) refl)

-- Once the pointer is set, the owner sees it.
set-Returns : (s : Threads) (o : Owner) → s.owner ≡ o → IsValid s → s.has_pointer ≡ true → Returns s
set-Returns s constructed e v p = absurd (ground arith)
set-Returns s started e v p =
    step_first (owner_locks e (ground arith))
      (checking-Returns (record s { owner = checking; mtx = by_owner }) refl p)
set-Returns s checking e v p = checking-Returns s e p
set-Returns s sleeping e v p = absurd (ground arith)
set-Returns s waking e v p =
    step_first (locks_again e (ground arith))
      (checking-Returns (record s { owner = checking; mtx = by_owner }) refl p)
set-Returns s has_loop e v p = at_once s (ap past_start e)
set-Returns s quitting e v p = at_once s (ap past_start e)
set-Returns s joining e v p = at_once s (ap past_start e)
set-Returns s joined e v p = at_once s (ap past_start e)

publishing-Returns : (s : Threads) → s.child ≡ locked → IsValid s → Returns s
publishing-Returns s h v =
    step_first (publishes h) (set-Returns _ _ refl (step-IsValid (publishes h) v) refl)

free-Returns : (s : Threads) → s.child ≡ constructing → s.mtx ≡ nobody → IsValid s → Returns s
free-Returns s h m v = step_first (child_locks h m) (
    publishing-Returns (record s { child = locked; mtx = by_child }) refl
      (step-IsValid (child_locks h m) v))

constructing-Returns :
    (s : Threads) (m : Holder) → s.mtx ≡ m → s.child ≡ constructing → IsValid s → Returns s
constructing-Returns s nobody m h v = free-Returns s h m v
constructing-Returns s by_owner m h v =
    let w : Step s (record s { owner = sleeping; mtx = nobody }) =
      waits (ground arith) (ground arith) in
    step_first w
      (free-Returns (record s { owner = sleeping; mtx = nobody }) h refl (step-IsValid w v))
constructing-Returns s by_child m h v = absurd (ground arith)

valid-Returns : (s : Threads) (c : Child) → s.child ≡ c → IsValid s → Returns s
valid-Returns s unborn h v =
    let w : Step s (record s { owner = started; child = constructing }) = starts (ground arith) in
    step_first w (
      constructing-Returns (record s { owner = started; child = constructing }) s.mtx refl refl
        (step-IsValid w v))
valid-Returns s constructing h v = constructing-Returns s s.mtx refl h v
valid-Returns s locked h v = publishing-Returns s h v
valid-Returns s published h v = set-Returns s s.owner refl v (ground arith)
valid-Returns s testing h v = set-Returns s s.owner refl v (ground arith)
valid-Returns s polling h v = set-Returns s s.owner refl v (ground arith)
valid-Returns s ended h v = set-Returns s s.owner refl v (ground arith)

-- In every run of the two threads, `startLoop` can return from wherever they stand, and has the
-- loop's pointer when it has returned; the owner never sleeps while the pointer is set, so the
-- notification is not lost, and the mutex is held by one thread at a time.
pub start_loop_ok :
    (flag : Bool) (s : Threads)
    → Steps (init flag) s
    → ((t : Threads) × Steps s t × (past_start t.owner ≡ true)) × IsValid s
unfolding Returns
start_loop_ok flag s ss =
    let v = steps-IsValid ss (init-IsValid flag) in (valid-Returns s s.child refl v, v)
