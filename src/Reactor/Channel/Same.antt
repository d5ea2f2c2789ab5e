-- ===== src/Reactor/Channel/Same.antt =====
-- channel.cpp: stores of channels that differ in the events that came only.
use native.Mathlib.Decide.{ℕ_discrete}
use tcp_net_library.Base.{ℕ, ◌≡◌, refl, ==_refl, ne→==_false}
use tcp_net_library.Reactor.Channel.{Channel, set_event}
use tcp_net_library.Reactor.Poller.{update_at}

-- The same channel, but for the events that came.
abbrev pub SameWatch : (ℕ → Channel) → (ℕ → Channel) → Type 0
SameWatch chans chans' =
    (q : ℕ)
    → ((chans' q).fd ≡ (chans q).fd)
      × ((chans' q).index ≡ (chans q).index)
      × ((chans' q).event ≡ (chans q).event)

pub same_fd :
    (chans chans' : ℕ → Channel) → SameWatch chans chans' → (q : ℕ) → (chans' q).fd ≡ (chans q).fd
same_fd chans chans' s q = (s q).0

pub SameWatch-refl : (chans : ℕ → Channel) → SameWatch chans chans
SameWatch-refl chans q = (refl, refl, refl)

pub set_event-SameWatch :
    (chans : ℕ → Channel) (start : ℕ → Channel) (p e : ℕ)
    → SameWatch start chans
    → SameWatch start (update_at chans p (set_event (chans p) e))
set_event-SameWatch chans start p e s q = elim (ℕ_discrete q p) [
  | yes h ↦ rw (h, ==_refl p) (s p)
  | no h ↦ rw (ne→==_false q p h) (s q)
]
