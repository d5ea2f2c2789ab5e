-- ===== src/Reactor/EventLoop/Turn.antt =====
-- eventLoop.cpp: what one turn of `loop` runs.
use tcp_net_library.Base.{
  ℕ, ◌≡◌, refl, ap, sym, ◌∙◌, append-nil, Bool, true, false, ◌&&◌, List, [], ◌∷◌, ◌++◌, some,
  if◌then◌else◌, Result, ok, fault, ◌>>=◌,
}
use tcp_net_library.Reactor.Channel.{
  Channel, Callback, on_close, on_error, on_read, on_write, has, handle_event,
}
use tcp_net_library.Reactor.Poller.{Poller}
use tcp_net_library.Reactor.Poller.Invariant.{IsValid}
use tcp_net_library.Reactor.Poller.Active.{Reports, Fires}
use tcp_net_library.Reactor.Poller.Polled.{poll-Fires}
use tcp_net_library.Reactor.EventLoop.{
  EventLoop, watch, run_callbacks, run_active, run_batch, do_pending_functors, turn,
}

-- A channel is told of an end when the peer hung up and nothing is left to read, of an error on
-- POLLNVAL or POLLERR, and so on, each only where the callback is set.
abbrev pub wants : Channel → Callback → Bool
wants c on_close = (has c.revent 0x10 && has c.revent 0x1) && c.has_close
wants c on_error = has c.revent 0x28 && c.has_error
wants c on_read = has c.revent 0x2003 && c.has_read
wants c on_write = has c.revent 0x4 && c.has_write

abbrev pub chosen {ℓ} : {A : Type ℓ} → (A → Bool) → List A → List A
chosen p [] = []
chosen p (x ∷ xs) = if p x then x ∷ chosen p xs else chosen p xs

abbrev pub asked : Channel → List Callback
asked c = chosen (wants c) (on_close ∷ on_error ∷ on_read ∷ on_write ∷ [])

notify-append :
    (h s : Bool) (cb : Callback) (rest : List Callback)
    → ((if h then if s then cb ∷ [] else [] else []) ++ rest)
      ≡ (if (h && s) then cb ∷ rest else rest)
notify-append true true cb rest = refl
notify-append true false cb rest = refl
notify-append false s cb rest = refl

pub handle_event-asked : (c : Channel) → handle_event c ≡ asked c
unfolding handle_event
handle_event-asked c =
    notify-append (has c.revent 0x10 && has c.revent 0x1) c.has_close on_close _
    ∙ ap (λ (l : List Callback). if wants c on_close then on_close ∷ l else l)
        (notify-append (has c.revent 0x28) c.has_error on_error _
          ∙ ap (λ (l : List Callback). if wants c on_error then on_error ∷ l else l)
              (notify-append (has c.revent 0x2003) c.has_read on_read _
                ∙ ap (λ (l : List Callback). if wants c on_read then on_read ∷ l else l)
                    (sym (append-nil _)
                      ∙ notify-append (has c.revent 0x4) c.has_write on_write [])))

-- The callbacks that a list of channels asks for, in order.
abbrev pub for_channel : ℕ → List Callback → List (ℕ × Callback)
for_channel p [] = []
for_channel p (cb ∷ cbs) = (p, cb) ∷ for_channel p cbs

abbrev pub schedule : (ℕ → Channel) → List ℕ → List (ℕ × Callback)
schedule chans [] = []
schedule chans (p ∷ ps) = for_channel p (asked (chans p)) ++ schedule chans ps

-- The stores ask for the same callbacks.
abbrev pub SameCallbacks : (ℕ → Channel) → (ℕ → Channel) → Type 0
SameCallbacks c d = (q : ℕ) → asked (d q) ≡ asked (c q)

bind_ext {ℓ κ} :
    {A : Type ℓ} {B : Type κ} {f g : A → Result B} (r : Result A)
    → ((a : A) → f a ≡ g a)
    → (r >>= f) ≡ (r >>= g)
bind_ext (ok a) h = h a
bind_ext (fault why) h = refl

-- Each action once, in the order of the list, up to the first that fails.
abbrev pub in_order {ℓ κ} : {A : Type ℓ} {S : Type κ} → (A → S → Result S) → List A → S → Result S
in_order act [] s = ok s
in_order act (x ∷ xs) s = act x s >>= λ t. in_order act xs t

module _ {User : Type 0} (handler : ℕ → Callback → EventLoop User → Result (EventLoop User))
    (functor : ℕ → EventLoop User → Result (EventLoop User)) where
  -- No callback changes what the channels ask for.
  abbrev pub KeepsCallbacks : Type 0
  KeepsCallbacks =
      (p : ℕ) (cb : Callback) (e e' : EventLoop User)
      → handler p cb e ≡ ok e'
      → SameCallbacks e.poller.chans e'.poller.chans

  abbrev pub run_schedule : List (ℕ × Callback) → EventLoop User → Result (EventLoop User)
  run_schedule = in_order (λ x. handler x.0 x.1)

  -- The functors of the batch, with an empty list for what they queue and the flag up meanwhile.
  abbrev pub run_functors : EventLoop User → Result (EventLoop User)
  run_functors e =
      in_order functor e.pending (record e { pending = []; calling_pending = true }) >>= λ g.
      ok (record g { calling_pending = false })

  -- The callbacks of one channel, before those of the channels that follow.
  rest-schedule :
      (c : ℕ → Channel) (p : ℕ) (ps : List ℕ) (cbs : List Callback) (e : EventLoop User)
      → KeepsCallbacks
      → ((f : EventLoop User)
          → SameCallbacks c f.poller.chans
          → run_active handler functor ps f ≡ run_schedule (schedule c ps) f)
      → SameCallbacks c e.poller.chans
      → (run_callbacks handler functor p cbs e >>= λ f. run_active handler functor ps f)
        ≡ run_schedule (for_channel p cbs ++ schedule c ps) e
  unfolding run_callbacks
  rest-schedule c p ps [] e k ih s = ih e s
  rest-schedule c p ps (cb ∷ cbs) e k ih s =
      after_handler (λ f t. rest-schedule c p ps cbs f k ih t) (handler p cb e) refl
    where
      after_handler :
          ((f : EventLoop User)
            → SameCallbacks c f.poller.chans
            → (run_callbacks handler functor p cbs f >>= λ g. run_active handler functor ps g)
              ≡ run_schedule (for_channel p cbs ++ schedule c ps) f)
          → (r : Result (EventLoop User)) → handler p cb e ≡ r
          → (r >>= (λ f. run_callbacks handler functor p cbs f) >>= λ f.
              run_active handler functor ps f)
            ≡ (r >>= λ f. run_schedule (for_channel p cbs ++ schedule c ps) f)
      after_handler next (fault why) h = refl
      after_handler next (ok f) h = next f (λ q. k p cb e f h q ∙ s q)

  active-schedule :
      (c : ℕ → Channel) (ps : List ℕ) (e : EventLoop User)
      → KeepsCallbacks
      → SameCallbacks c e.poller.chans
      → run_active handler functor ps e ≡ run_schedule (schedule c ps) e
  unfolding run_active
  active-schedule c [] e k s = refl
  active-schedule c (p ∷ ps) e k s =
      ap
        (λ (cbs : List Callback).
          run_callbacks handler functor p cbs e >>= λ f. run_active handler functor ps f)
        (handle_event-asked (e.poller.chans p) ∙ s p)
      ∙ rest-schedule c p ps (asked (c p)) e k (λ f t. active-schedule c ps f k t) s

  batch-in_order :
      (fs : List ℕ) (e : EventLoop User) → run_batch handler functor fs e ≡ in_order functor fs e
  unfolding run_batch
  batch-in_order [] e = refl
  batch-in_order (f ∷ fs) e = bind_ext (functor f e) (λ g. batch-in_order fs g)

  functors-run :
      (r : Result (EventLoop User))
      → (r >>= λ f. do_pending_functors handler functor f) ≡ (r >>= λ f. run_functors f)
  unfolding do_pending_functors
  functors-run r = bind_ext r (λ f.
      ap (λ (r' : Result (EventLoop User)). r' >>= λ g. ok (record g { calling_pending = false }))
        (batch-in_order f.pending (record f { pending = []; calling_pending = true })))

  -- One turn with an answer of the kernel, where the poller is valid and no callback changes what
  -- the channels ask for: each entry with events has its channel's callbacks run, channel by channel
  -- in the order of the entries; those of a channel are the ones set of close (POLLHUP with POLLIN),
  -- error (POLLNVAL or POLLERR), read (POLLIN, POLLPRI or POLLRDHUP) and write (POLLOUT), in that
  -- order. Then each functor that is pending by then runs once, in order, over an empty list and with
  -- the flag of calling functors up, and the flag is down at the end. The first of these that fails
  -- ends the turn with its failure.
  pub turn-schedule :
      (e : EventLoop User) (n : ℕ) (rs : List ℕ)
      → KeepsCallbacks
      → IsValid e.poller
      → Reports e.poller.pollfds rs n
      → (w : Poller) × (ps : List ℕ) × Fires e.poller.channels w.chans e.poller.pollfds rs ps
        × IsValid w
        × (turn handler functor e (some (n, rs))
            ≡ (run_schedule (schedule w.chans ps) (watch e w) >>= λ f. run_functors f))
  unfolding turn
  turn-schedule e n rs k v h =
      let (w, ps, p, f, i) = poll-Fires e.poller n rs v h in
      (
        w,
        ps,
        f,
        i,
        rw (p, active-schedule w.chans ps (watch e w) k (λ q. refl))
            (functors-run (run_schedule (schedule w.chans ps) (watch e w))),
      )
