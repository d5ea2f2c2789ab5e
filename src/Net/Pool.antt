-- ===== src/Net/Pool.antt =====
-- eventLoopThreadPool.h and eventLoopThreadPool.cpp: the loops that new connections go to, in turn.
-- A loop is a number; `start_loop` says which loop the i-th new thread runs.
pub mod Rotation
use tcp_net_library.Base.{
  ℕ, zero, suc, ◌+◌, Bool, true, false, not, List, [], ◌∷◌, ◌++◌, Option, none, some, length,
  get_elem?, leb, if◌then◌else◌, Result, ok, fault, assert, ◌>>=◌, ◌>>◌,
}
use tcp_net_library.Reactor.Poller.{assert_in_loop, or_fault}

pub record Pool : Type 0 where
  pub base_loop : ℕ
  pub thread : ℕ
  pub started : Bool
  pub num_threads : ℕ
  pub next : ℕ
  pub loops : List ℕ

abbrev pub new_pool : ℕ → ℕ → Pool
new_pool base_loop thread = record {
  base_loop = base_loop;
  thread = thread;
  started = false;
  num_threads = 0;
  next = 0;
  loops = [];
}

abbrev pub set_thread_num : Pool → ℕ → Pool
set_thread_num w n = record w { num_threads = n }

-- The loop that starts the threads from the i-th on, `n` of them.
unfoldable pub start_loops : (ℕ → ℕ) → ℕ → ℕ → List ℕ → List ℕ
start_loops start_loop i zero loops = loops
start_loops start_loop i (suc n) loops =
    start_loops start_loop (i + 1) n (loops ++ start_loop i ∷ [])

unfoldable pub start : ℕ → (ℕ → ℕ) → Pool → Result Pool
start caller start_loop w =
    assert (not w.started)
    >> (assert_in_loop w.thread caller
        >> ok (record w { started = true; loops = start_loops start_loop 0 w.num_threads w.loops }))

abbrev advance : Pool → Pool
advance w =
    let next = w.next + 1 in record w { next = if leb (length w.loops) next then 0 else next }

unfoldable pub choose : List ℕ → Pool → Result (ℕ × Pool)
choose [] w = ok (w.base_loop, w)
choose (l ∷ ls) w = or_fault (get_elem? (l ∷ ls) w.next) >>= λ loop. ok (loop, advance w)

unfoldable pub get_next_loop : ℕ → Pool → Result (ℕ × Pool)
get_next_loop caller w = assert_in_loop w.thread caller >> choose w.loops w
