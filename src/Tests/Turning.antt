-- ===== src/Tests/Turning.antt =====
-- The loop's theorems at a loop with one channel, whose user counts the callbacks.
use tcp_net_library.Base.{
  ℕ, zero, suc, get_elem?, ◌+◌, ◌≡◌, refl, sym, ap, subst, true, false, List, [], ◌∷◌, none, some,
  some_inj, Bool-cases, inl, inr, ==_iff, ◌==◌, if◌then◌else◌, pos, Result, ok, ok_inj, ◌>>=◌,
}
use tcp_net_library.Reactor.Channel.{Callback, new_channel}
use tcp_net_library.Reactor.Poller.{PollFd, Poller}
use tcp_net_library.Reactor.Poller.Invariant.{IsValid, Entry, Owner}
use tcp_net_library.Reactor.Poller.Active.{Reports, Fires}
use tcp_net_library.Reactor.EventLoop.{EventLoop, watch, turn}
use tcp_net_library.Reactor.EventLoop.Turn.{
  asked, schedule, run_schedule, run_functors, KeepsCallbacks, turn-schedule,
}

abbrev count : ℕ → Callback → EventLoop ℕ → Result (EventLoop ℕ)
count p cb e = ok (record e { user = e.user + 1 })

-- The functor asks the loop to quit.
abbrev quitting : ℕ → EventLoop ℕ → Result (EventLoop ℕ)
quitting f e = ok (record e { quit = true })

-- The object 7 has the descriptor 5 and waits for reading.
abbrev watching : Poller
watching = record {
  thread = 1;
  pollfds = record { fd = pos 5; events = 3; revents = 0 } ∷ [];
  channels = λ fd. if fd == 5 then some 7 else none;
  chans = λ p. record (new_channel 5) { event = 3; index = pos 0; has_read = true };
}

entry : Entry watching 5 7
entry = record {
  same_fd = refl;
  at = 0;
  pfd = record { fd = pos 5; events = 3; revents = 0 };
  index = refl;
  stands = refl;
  names = refl;
}

watching-listed :
    (i : ℕ) (pfd : PollFd) → get_elem? watching.pollfds i ≡ some pfd → Owner watching i pfd
watching-listed zero pfd e =
    subst (Owner watching 0) (some_inj e) (record { channel = 7; mapped = refl; index = refl })
watching-listed (suc i) pfd e = absurd (cc e)

watching-IsValid : IsValid watching
watching-IsValid = record {
  known = λ fd p e. elim (Bool-cases (fd == 5)) [
    | inl s ↦
        let same : 7 ≡ p = some_inj (rw s at e) in
        subst (λ t. Entry watching t p) (sym ((==_iff fd 5).0 s))
          (subst (Entry watching 5) same entry)
    | inr s ↦ absurd (cc (e, s))
  ];
  listed = watching-listed;
}

abbrev idle : EventLoop ℕ
idle = record {
  thread = 1;
  looping = false;
  quit = false;
  calling_pending = false;
  poller = watching;
  pending = 4 ∷ [];
  user = 0;
}

keeps : KeepsCallbacks count quitting
keeps p cb e e' h q = ap (λ (t : EventLoop ℕ). asked (t.poller.chans q)) (sym (ok_inj h))

turn-schedule_example :
    (w : Poller) × (ps : List ℕ) × Fires watching.channels w.chans watching.pollfds (1 ∷ []) ps
    × IsValid w
    × (turn count quitting idle (some (1, 1 ∷ [])) ≡ (
        run_schedule count quitting (schedule w.chans ps) (watch idle w) >>= λ f.
        run_functors count quitting f))
turn-schedule_example =
    turn-schedule count quitting idle 1 (1 ∷ []) keeps watching-IsValid
      (Reports.ready refl refl Reports.done)
