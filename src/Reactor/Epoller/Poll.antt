-- ===== src/Reactor/Epoller/Poll.antt =====
-- epoller.cpp: `poll`.
use tcp_net_library.Base.{
  ℕ, ◌*◌, ◌≤◌, ◌<◌, ◌≡◌, refl, sym, ap, subst, ◌∙◌, Option, none, some, ◌==◌, List, [], ◌∷◌, ◌++◌,
  map, append-nil, append_assoc, length, le→leb, if◌then◌else◌, ok, arith, ==_refl, some_inj,
}
use tcp_net_library.Reactor.Channel.{Channel, set_event}
use tcp_net_library.Reactor.Poller.{Filled, update_at}
use tcp_net_library.Reactor.Channel.Same.{SameWatch, same_fd, SameWatch-refl, set_event-SameWatch}
use tcp_net_library.Reactor.Epoller.{Epoller, EpollCalls, poll, fill_active}
use tcp_net_library.Reactor.Epoller.Watched.{Agrees, Slot, known, on, off, free, IsValid}

-- Each pointer is that of the channel its descriptor is mapped to.
pub data AllKnown (channels : ℕ → Option ℕ) (chans : ℕ → Channel) : List (ℕ × ℕ) → Type 0 where
  nil : AllKnown channels chans []
  cons :
      {e p : ℕ} {rest : List (ℕ × ℕ)}
      → channels (chans p).fd ≡ some p
      → AllKnown channels chans rest
      → AllKnown channels chans ((e, p) ∷ rest)

fill_active_ok :
    (channels : ℕ → Option ℕ) (chans : ℕ → Channel) (events : List (ℕ × ℕ)) (acc : Filled)
    → AllKnown channels chans events
    → SameWatch chans acc.chans
    → (f : Filled) × (fill_active channels events acc ≡ ok f)
      × (f.active ≡ acc.active ++ map (λ t. t.1) events)
      × SameWatch chans f.chans
unfolding fill_active
fill_active_ok channels chans [] acc nil s = (acc, refl, sym (append-nil acc.active), s)
fill_active_ok channels chans ((e, p) ∷ rest) acc (cons m r) s =
    let here : channels (acc.chans p).fd ≡ some p = ap channels (same_fd chans acc.chans s p) ∙ m in
    let (f, h, a, t) =
      fill_active_ok channels chans rest
        (record {
          chans = update_at acc.chans p (set_event (acc.chans p) e);
          active = acc.active ++ p ∷ [];
        })
        r (set_event-SameWatch acc.chans chans p e s) in
    (f, rw (here, ==_refl p) h, a ∙ append_assoc acc.active (p ∷ []) _, t)

Slot-pointer :
    (chans : ℕ → Channel) (fd p e : ℕ) (held : Option (ℕ × ℕ)) (entry : Option ℕ)
    → Slot chans fd held entry
    → held ≡ some (e, p)
    → (entry ≡ some p) × ((chans p).fd ≡ fd)
Slot-pointer chans fd p e held none (free h) g = absurd (cc (h, g))
Slot-pointer chans fd p e held (some q) (known own (off i h)) g = absurd (cc (h, g))
Slot-pointer chans fd p e held (some q) (known own (on e' i h)) g =
    let same : q ≡ p = ap (λ (t : ℕ × ℕ). t.1) (some_inj (sym h ∙ g)) in
    (ap some same, subst (λ t. (chans t).fd ≡ fd) same own)

Slot-kept :
    (chans chans' : ℕ → Channel) (fd : ℕ) (held : Option (ℕ × ℕ)) (entry : Option ℕ)
    → SameWatch chans chans'
    → Slot chans fd held entry
    → Slot chans' fd held entry
Slot-kept chans chans' fd held none s (free h) = free h
Slot-kept chans chans' fd held (some q) s (known own a) =
    known ((s q).0 ∙ own) (subst (Agrees q held) (sym (s q).1) a)

abbrev grown : ℕ → ℕ → ℕ
grown n size = if n == size then size * 2 else size

grown_ok : (n size : ℕ) → 0 < size → n ≤ size → (size ≤ grown n size) × (n < grown n size)
grown_ok n size z l = ground arith

module _ {k : EpollCalls} where
  -- The kernel answers with the pointers that it was given.
  pub data Answers (w : Epoller k) : List (ℕ × ℕ) → Type 0 where
    none_left : Answers w []
    event :
        {e e' fd p : ℕ} {rest : List (ℕ × ℕ)}
        → k.watched w.kernel fd ≡ some (e', p)
        → Answers w rest
        → Answers w ((e, p) ∷ rest)

  all_known :
      (w : Epoller k) (events : List (ℕ × ℕ))
      → IsValid w
      → Answers w events
      → AllKnown w.channels w.chans events
  all_known w [] v none_left = nil
  all_known w ((e, p) ∷ rest) v (event {fd = fd} h r) =
      let (m, own) = Slot-pointer w.chans fd p _ _ _ (v fd) h in
      cons (ap w.channels own ∙ m) (all_known w rest v r)

  -- In a valid epoller, `poll` on an answer that fits the list of events and names only channels that
  -- the kernel was given to watch fails no assertion. The active channels are those that the kernel
  -- named, in its order, the epoller stays valid, and the list of events has still room for at least as
  -- many, for more where it was full.
  pub poll_ok :
      (w : Epoller k) (events : List (ℕ × ℕ))
      → IsValid w
      → Answers w events
      → 0 < w.event_list_size
      → length events ≤ w.event_list_size
      → (w' : Epoller k) × (poll w (some events) ≡ ok (w', map (λ t. t.1) events))
        × IsValid w'
        × (w.event_list_size ≤ w'.event_list_size)
        × (length events < w'.event_list_size)
  unfolding poll
  poll_ok w [] v a z l = (w, refl, v, omega arith, z)
  poll_ok w (e ∷ es) v a z l =
      let (f, h, act, s) =
        fill_active_ok w.channels w.chans (e ∷ es) (record { chans = w.chans; active = [] })
          (all_known w _ v a) (SameWatch-refl w.chans) in
      (
        record w { chans = f.chans; event_list_size = grown (length (e ∷ es)) w.event_list_size },
        rw (le→leb _ _ l, h, act),
        λ fd. Slot-kept w.chans f.chans fd _ _ s (v fd),
        (grown_ok (length (e ∷ es)) w.event_list_size z l).0,
        (grown_ok (length (e ∷ es)) w.event_list_size z l).1,
      )
