-- ===== src/Reactor/LoopThread.antt =====
-- eventLoopThread.h and eventLoopThread.cpp, with `loop` and `quit` of eventLoop.cpp: the thread that
-- owns an `EventLoopThread`, and the thread that it starts. The mutex, the condition variable, the
-- pointer `loop_`, the flag `quit_` and the counter of the wake-up descriptor are shared; each
-- access to them is a step.
pub mod Start
pub mod Quit
use tcp_net_library.Base.{ℕ, ◌+◌, ◌≡◌, Bool, true, false}

-- Where the owner is: in `startLoop`, from the constructor on, then in the destructor.
pub data Owner : Type 0 where
  constructed started checking sleeping waking has_loop quitting joining joined : Owner

-- Where the started thread is: in `threadFunc`, then in `loop`, where it tests `quit_` or polls.
pub data Child : Type 0 where
  unborn constructing locked published testing polling ended : Child

pub data Holder : Type 0 where
  nobody by_owner by_child : Holder

pub record Threads : Type 0 where
  pub owner : Owner
  pub child : Child
  pub mtx : Holder
  pub has_pointer : Bool
  pub quit : Bool
  pub wakes : ℕ

-- `quit_` is not set by the constructor of the loop.
abbrev pub init : Bool → Threads
init flag = record {
  owner = constructed;
  child = unborn;
  mtx = nobody;
  has_pointer = false;
  quit = flag;
  wakes = 0;
}

-- `notify_one`
abbrev pub notified : Owner → Owner
notified sleeping = waking
notified o = o

-- A wait may also end without a notification, and `poll` without an event, after ten seconds.
pub data Step (s : Threads) : Threads → Type 0 where
  starts : s.owner ≡ constructed → Step s (record s { owner = started; child = constructing })
  owner_locks :
      s.owner ≡ started → s.mtx ≡ nobody → Step s (record s { owner = checking; mtx = by_owner })
  waits :
      s.owner ≡ checking
      → s.has_pointer ≡ false
      → Step s (record s { owner = sleeping; mtx = nobody })
  wakes_up : s.owner ≡ sleeping → Step s (record s { owner = waking })
  locks_again :
      s.owner ≡ waking → s.mtx ≡ nobody → Step s (record s { owner = checking; mtx = by_owner })
  returns :
      s.owner ≡ checking
      → s.has_pointer ≡ true
      → Step s (record s { owner = has_loop; mtx = nobody })
  child_locks :
      s.child ≡ constructing → s.mtx ≡ nobody → Step s (record s { child = locked; mtx = by_child })
  publishes :
      s.child ≡ locked
      → Step s (record s {
        child = published;
        mtx = nobody;
        has_pointer = true;
        owner = notified s.owner;
      })
  enters : s.child ≡ published → Step s (record s { child = testing; quit = false })
  polls : s.child ≡ testing → s.quit ≡ false → Step s (record s { child = polling })
  handles : s.child ≡ polling → Step s (record s { child = testing; wakes = 0 })
  ends : s.child ≡ testing → s.quit ≡ true → Step s (record s { child = ended })
  quits : s.owner ≡ has_loop → Step s (record s { owner = quitting; quit = true })
  writes : s.owner ≡ quitting → Step s (record s { owner = joining; wakes = s.wakes + 1 })
  joins : s.owner ≡ joining → s.child ≡ ended → Step s (record s { owner = joined })

pub data Steps (s : Threads) : Threads → Type 0 where
  here : Steps s s
  later : {t u : Threads} → Steps s t → Step t u → Steps s u
