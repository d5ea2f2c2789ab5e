-- ===== src/Tests/Polling.antt =====
-- The poller's theorems at a poller with one channel.
use tcp_net_library.Base.{
  ℕ, zero, suc, List, ◌≡◌, refl, sym, subst, [], ◌∷◌, none, some, some_inj, get_elem?, ok, fault,
  assert_failed, ==_iff, ◌==◌, Bool-cases, inl, inr, if◌then◌else◌, ℤ, pos, negsuc,
}
use tcp_net_library.Reactor.Channel.{new_channel, enable_reading}
use tcp_net_library.Reactor.Poller.{
  poll, PollFd, Poller, descriptor, update_channel, remove_channel,
}
use tcp_net_library.Reactor.Poller.Invariant.{IsValid, IsNew, Entry, Owner}
use tcp_net_library.Reactor.Poller.Update.{update_channel_new}
use tcp_net_library.Reactor.Poller.Active.{Reports, Fires}
use tcp_net_library.Reactor.Poller.Polled.{poll-Fires}
use tcp_net_library.Reactor.Poller.Removed.{Removed, remove_channel_ok, remove-update_channel}

abbrev empty : Poller
empty = record {
  thread = 1;
  pollfds = [];
  channels = λ fd. none;
  chans = λ p. enable_reading (new_channel p);
}

empty-IsValid : IsValid empty
empty-IsValid = record { known = λ fd p e. absurd (cc e); listed = λ i pfd e. absurd (cc e) }

five-IsNew : IsNew empty 5
five-IsNew = record { below = 0; index = refl; unmapped = refl }

-- The object 7 has the descriptor 5 and wants `event`; its entry has the descriptor `z`.
abbrev one : ℤ → ℕ → Poller
one z event = record {
  thread = 1;
  pollfds = record { fd = z; events = event; revents = 0 } ∷ [];
  channels = λ fd. if fd == 5 then some 7 else none;
  chans = λ p. record (new_channel 5) { event = event; index = pos 0 };
}

abbrev entry : (z : ℤ) (event : ℕ) → descriptor z ≡ 5 → Entry (one z event) 5 7
entry z event h = record {
  same_fd = refl;
  at = 0;
  pfd = record { fd = z; events = event; revents = 0 };
  index = refl;
  stands = refl;
  names = h;
}

one-known :
    (z : ℤ) (event : ℕ)
    → descriptor z ≡ 5
    → (fd p : ℕ) → (one z event).channels fd ≡ some p
    → Entry (one z event) fd p
one-known z event h fd p e = elim (Bool-cases (fd == 5)) [
  | inl s ↦
      let same : 7 ≡ p = some_inj (rw s at e) in
      subst (λ t. Entry (one z event) t p) (sym ((==_iff _ _).0 s))
        (subst (Entry (one z event) 5) same (entry z event h))
  | inr s ↦ absurd (cc (e, s))
]

one-listed :
    (z : ℤ) (event : ℕ)
    → descriptor z ≡ 5
    → (i : ℕ) (pfd : PollFd) → get_elem? (one z event).pollfds i ≡ some pfd
    → Owner (one z event) i pfd
one-listed z event h zero pfd e =
    let same = some_inj e in
    subst (Owner (one z event) 0) same (record { channel = 7; mapped = rw h; index = refl })
one-listed z event h (suc i) pfd e = absurd (cc e)

one-IsValid : (z : ℤ) (event : ℕ) → descriptor z ≡ 5 → IsValid (one z event)
one-IsValid z event h = record { known = one-known z event h; listed = one-listed z event h }

update_channel_new_example :
    (w' : Poller) × (update_channel 1 empty 5 ≡ ok w')
    × IsValid w'
    × (w'.channels 5 ≡ some 5)
    × ((w'.chans 5).index ≡ pos 0)
    × (get_elem? w'.pollfds 0 ≡ some (record { fd = pos 5; events = 3; revents = 0 }))
update_channel_new_example = update_channel_new empty 5 empty-IsValid five-IsNew

remove_channel_ok_example :
    (w' : Poller) × (remove_channel 1 (one (negsuc 5) 0) 7 ≡ ok w')
    × Removed (one (negsuc 5) 0) 7 w'
remove_channel_ok_example =
    remove_channel_ok (one (negsuc 5) 0) 7 (one-IsValid (negsuc 5) 0 refl) refl refl

abbrev without : Poller
without = (remove_channel_ok (one (negsuc 5) 0) 7 (one-IsValid (negsuc 5) 0 refl) refl refl).0

remove-update_channel_example : update_channel without.thread without 7 ≡ fault assert_failed
remove-update_channel_example =
    remove-update_channel (one (negsuc 5) 0) without 7 (one-IsValid (negsuc 5) 0 refl) refl refl
      (remove_channel_ok (one (negsuc 5) 0) 7 (one-IsValid (negsuc 5) 0 refl) refl refl).1

poll-Fires_example :
    (w' : Poller) × (ps : List ℕ) × (poll (one (pos 5) 3) (some (1, 1 ∷ [])) ≡ ok (w', ps))
    × Fires (one (pos 5) 3).channels w'.chans (one (pos 5) 3).pollfds (1 ∷ []) ps
    × IsValid w'
poll-Fires_example =
    poll-Fires (one (pos 5) 3) 1 (1 ∷ []) (one-IsValid (pos 5) 3 refl)
      (Reports.ready refl refl Reports.done)
