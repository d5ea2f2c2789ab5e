-- ===== src/Reactor/EventLoop.antt =====
-- eventLoop.h and eventLoop.cpp: `loop`, with the poller and the functors. The user's state is a
-- parameter, and so are the channels' callbacks and the functors, which may change the whole loop.
-- Each turn has the kernel's answer to `poll`.
pub mod Turn
use tcp_net_library.Base.{
  ℕ, Bool, true, false, not, List, [], ◌∷◌, ◌==◌, ◌++◌, Option, if◌then◌else◌, Result, ok, fault,
  out_of_fuel, assert, ◌>>=◌, ◌>>◌,
}
use tcp_net_library.Reactor.Channel.{Callback, handle_event}
use tcp_net_library.Reactor.Poller.{Poller, poll, assert_in_loop, update_channel, remove_channel}

pub record EventLoop (User : Type 0) : Type 0 where
  pub thread : ℕ
  pub looping : Bool
  pub quit : Bool
  pub calling_pending : Bool
  pub poller : Poller
  pub pending : List ℕ
  pub user : User

module _ {User : Type 0} where
  abbrev pub watch : EventLoop User → Poller → EventLoop User
  watch e w = record e { poller = w }

  -- `updateChannel` and `removeChannel`; a channel has the loop that it was made for.
  unfoldable pub loop_update_channel : ℕ → EventLoop User → ℕ → Result (EventLoop User)
  loop_update_channel caller e p =
      assert_in_loop e.thread caller >> (update_channel caller e.poller p >>= λ w. ok (watch e w))

  unfoldable pub loop_remove_channel : ℕ → EventLoop User → ℕ → Result (EventLoop User)
  loop_remove_channel caller e p =
      assert_in_loop e.thread caller >> (remove_channel caller e.poller p >>= λ w. ok (watch e w))

  -- `quit`, and whether it wakes the loop.
  abbrev pub ask_quit : ℕ → EventLoop User → EventLoop User × Bool
  ask_quit caller e = (record e { quit = true }, not (e.thread == caller))

  module _ (handler : ℕ → Callback → EventLoop User → Result (EventLoop User))
      (functor : ℕ → EventLoop User → Result (EventLoop User)) where
    unfoldable pub run_callbacks : ℕ → List Callback → EventLoop User → Result (EventLoop User)
    run_callbacks p [] e = ok e
    run_callbacks p (cb ∷ cbs) e = handler p cb e >>= λ e'. run_callbacks p cbs e'

    -- The loop over `activeChannels_`.
    unfoldable pub run_active : List ℕ → EventLoop User → Result (EventLoop User)
    run_active [] e = ok e
    run_active (p ∷ ps) e =
        run_callbacks p (handle_event (e.poller.chans p)) e >>= λ e'. run_active ps e'

    unfoldable pub run_batch : List ℕ → EventLoop User → Result (EventLoop User)
    run_batch [] e = ok e
    run_batch (f ∷ fs) e = functor f e >>= λ e'. run_batch fs e'

    -- The batch is taken first; what its functors queue waits for the next turn.
    unfoldable pub do_pending_functors : EventLoop User → Result (EventLoop User)
    do_pending_functors e =
        run_batch e.pending (record e { pending = []; calling_pending = true }) >>= λ e'.
        ok (record e' { calling_pending = false })

    unfoldable pub turn : EventLoop User → Option (ℕ × List ℕ) → Result (EventLoop User)
    turn e answer =
        poll e.poller answer >>= λ r. run_active r.1 (watch e r.0) >>= λ e'. do_pending_functors e'

    -- `while(!quit_)`
    unfoldable pub turns : EventLoop User → List (Option (ℕ × List ℕ)) → Result (EventLoop User)
    turns e [] = if e.quit then ok (record e { looping = false }) else fault out_of_fuel
    turns e (answer ∷ answers) =
        if e.quit
        then ok (record e { looping = false })
        else (turn e answer >>= λ e'. turns e' answers)

    unfoldable pub loop : ℕ → EventLoop User → List (Option (ℕ × List ℕ)) → Result (EventLoop User)
    loop caller e answers =
        assert (not e.looping)
        >> (assert_in_loop e.thread caller
            >> turns (record e { looping = true; quit = false }) answers)
