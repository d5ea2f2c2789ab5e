-- ===== src/Reactor/Loop.antt =====
-- eventLoop.h and eventLoop.cpp: the queue of functors that other threads hand to a loop, and the
-- descriptor that wakes it. A functor is a number. The loop's thread is outside of `loop`, or waiting
-- in `poll`, handling events, or in `doPendingFunctors`; what a callback or a functor asks of the
-- queue comes as a step of its own. `waking` counts the other threads between their push and their
-- write; `queued` and `ran` remember the functors for the theorems, and `early` that the loop's own
-- thread has queued one outside of `loop` and no `poll` has returned since.
pub mod Early
pub mod Interleaving
use tcp_net_library.Base.{
  ℕ, ◌+◌, ◌-◌, ◌<◌, ◌≡◌, ◌≢◌, Bool, true, false, not, ◌||◌, List, [], ◌∷◌, ◌++◌, ◌==◌,
  if◌then◌else◌,
}

pub data Phase : Type 0 where
  outside polling handling calling : Phase

pub record Loop : Type 0 where
  pub thread : ℕ
  pub phase : Phase
  pub calling_pending : Bool
  pub pending : List ℕ
  pub batch : List ℕ
  pub wakes : ℕ
  pub waking : ℕ
  pub queued : List ℕ
  pub ran : List ℕ
  pub early : Bool

-- The constructor does not set the flag, and does not run `loop`.
abbrev pub new_loop : ℕ → Bool → Loop
new_loop thread flag = record {
  thread = thread;
  phase = outside;
  calling_pending = flag;
  pending = [];
  batch = [];
  wakes = 0;
  waking = 0;
  queued = [];
  ran = [];
  early = false;
}

abbrev pub push : Loop → ℕ → Loop
push w f = record w { pending = w.pending ++ f ∷ []; queued = w.queued ++ f ∷ [] }

-- The write adds to the counter of the descriptor.
abbrev pub wakeup : Loop → Loop
wakeup w = record w { wakes = w.wakes + 1 }

-- `handleRead` takes the whole counter.
abbrev pub handle_read : Loop → Loop
handle_read w = record w { wakes = 0 }

unfoldable pub queue_inloop : ℕ → Loop → ℕ → Loop
queue_inloop caller w f =
    if not (w.thread == caller) || w.calling_pending then wakeup (push w f) else push w f

-- The first half of `doPendingFunctors`.
abbrev pub take_batch : Loop → Loop
take_batch w = record w { phase = calling; calling_pending = true; batch = w.pending; pending = [] }

abbrev pub run_first : Loop → ℕ → List ℕ → Loop
run_first w f rest = record w { batch = rest; ran = w.ran ++ f ∷ [] }

-- Its end; the loop polls again.
abbrev pub finish : Loop → Loop
finish w = record w { phase = polling; calling_pending = false }

-- A functor runs at once in the loop's thread.
unfoldable pub run_in_loop : ℕ → Loop → ℕ → Loop
run_in_loop caller w f =
    if w.thread == caller then record w { ran = w.ran ++ f ∷ [] } else queue_inloop caller w f

-- What the threads can do next.
pub data Step : Loop → Loop → Type 0 where
  pushes : (w : Loop) (f : ℕ) → Step w (record (push w f) { waking = w.waking + 1 })
  writes : (w : Loop) → 0 < w.waking → Step w (record (wakeup w) { waking = w.waking - 1 })
  queues_early :
      (w : Loop) (f : ℕ)
      → w.phase ≡ outside
      → Step w (record (queue_inloop w.thread w f) { early = true })
  enters : (w : Loop) → w.phase ≡ outside → Step w (record w { phase = polling })
  queues :
      (w : Loop) (f : ℕ)
      → w.phase ≢ outside
      → w.phase ≢ polling
      → Step w (queue_inloop w.thread w f)
  returns : (w : Loop) → w.phase ≡ polling → Step w (record w { phase = handling; early = false })
  reads : (w : Loop) → w.phase ≡ handling → Step w (handle_read w)
  takes : (w : Loop) → w.phase ≡ handling → Step w (take_batch w)
  runs :
      (w : Loop) (f : ℕ) (rest : List ℕ)
      → w.phase ≡ calling
      → w.batch ≡ f ∷ rest
      → Step w (run_first w f rest)
  ends : (w : Loop) → w.phase ≡ calling → w.batch ≡ [] → Step w (finish w)
  quits :
      (w : Loop) → w.phase ≡ calling → w.batch ≡ [] → Step w (record (finish w) { phase = outside })

pub data Steps : Loop → Loop → Type 0 where
  here : (w : Loop) → Steps w w
  next : (u v w : Loop) → Steps u v → Step v w → Steps u w
