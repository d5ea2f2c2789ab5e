-- ===== src/Tests/Threads.antt =====
-- The loop's theorems at a run of two threads.
use tcp_net_library.Base.{◌+◌, ◌<◌, ◌≤◌, ◌≡◌, ◌≢◌, refl, true, false, ◌++◌, inl}
use tcp_net_library.Reactor.Loop.{Loop, polling, new_loop, push, pushes, enters, here, next}
use tcp_net_library.Reactor.Loop as Loop
use tcp_net_library.Reactor.Loop.Interleaving.{steps_order, steps_awake}
use tcp_net_library.Reactor.LoopThread.{
  Threads, init, has_loop, quitting, joining, testing, ended, nobody, Step, Steps, later, starts,
  owner_locks, returns, child_locks, publishes, ends, writes,
}
use tcp_net_library.Reactor.LoopThread.Start.{IsValid, past_start, start_loop_ok}
use tcp_net_library.Reactor.LoopThread.Quit.{overtaken, quit_overtaken, child_turns, quit_ends}

abbrev first : Loop
first = new_loop 1 false

abbrev entered : Loop
entered = record first { phase = polling }

-- While the loop polls, another thread has pushed the functor 8, and has not written yet.
abbrev pushed : Loop
pushed = record (push entered 8) { waking = 1 }

run : Loop.Steps first pushed
run =
    next first entered pushed (next first first entered (here first) (enters first refl))
      (pushes entered 8)

steps_order_example : pushed.queued ≡ pushed.ran ++ (pushed.batch ++ pushed.pending)
steps_order_example = steps_order 1 false pushed run

steps_awake_example : 0 < 0 + 1
steps_awake_example = steps_awake 1 false pushed run refl (λ e. cc e) refl

-- The owner has the pointer while the started thread enters its loop.
abbrev handed : Threads
handed = record {
  owner = has_loop;
  child = testing;
  mtx = nobody;
  has_pointer = true;
  quit = false;
  wakes = 0;
}

handed_steps : Steps (init true) handed
handed_steps =
    later
      (later
        (later
          (later (later (later Steps.here (starts refl)) (child_locks refl refl)) (publishes refl))
          (owner_locks refl refl))
        (returns refl refl))
      (Step.enters refl)

start_loop_ok_example :
    ((t : Threads) × Steps handed t × (past_start t.owner ≡ true)) × IsValid handed
start_loop_ok_example = start_loop_ok true handed handed_steps

quit_overtaken_example :
    Steps (init true) overtaken
    × (overtaken.quit ≡ false)
    × (overtaken.owner ≡ joining)
    × (overtaken.child ≢ ended)
quit_overtaken_example = quit_overtaken true overtaken Steps.here

abbrev told : Threads
told = record handed { owner = quitting; quit = true }

abbrev over : Threads
over = record handed { owner = joining; child = ended; quit = true; wakes = 1 }

told_steps : Steps told over
told_steps = later (later Steps.here (writes refl)) (ends refl refl)

quit_ends_example :
    (child_turns told_steps ≤ 2) × ((u : Threads) × Steps over u × (u.child ≡ ended))
quit_ends_example =
    quit_ends told_steps (record { begun = λ e. cc e; quit = refl; child = inl refl })
