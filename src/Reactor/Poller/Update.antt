-- ===== src/Reactor/Poller/Update.antt =====
-- poller.cpp: `updateChannel` on new and on known channels.
use native.Mathlib.Decide.{ℕ_discrete}
use tcp_net_library.Base.{
  ℕ, ◌≡◌, ◌≢◌, ap, sym, subst, ◌∙◌, true, arith, some, some_inj, length, get_elem?, get_elem?_lt,
  get_elem?-set_self, get_elem?-set_ne, get_elem?-append_end, set, ok, fault, fatal, ==_refl,
  ne→==_false, lt→ltb, ℤ, pos, negsuc, eq_ℤ, ◌||◌, Bool-cases, inl, inr, if◌then◌else◌,
}
use tcp_net_library.Reactor.Channel.{Channel, is_none_event}
use tcp_net_library.Reactor.Poller.{
  PollFd, Poller, descriptor, modify_channel, update_at_index, update_channel, short,
}
use tcp_net_library.Reactor.Poller.Invariant.{
  IsValid, Entry, Owner, IsNew, added, add_channel_ok, added-IsValid, at_p, update_at_self,
}

-- The entry of a channel once its events are stored.
abbrev pub refreshed : Channel → PollFd → PollFd
refreshed c pfd = record {
  fd = if is_none_event c then negsuc c.fd else pfd.fd;
  events = short c.event;
  revents = 0;
}

abbrev pub modified : Poller → ℕ → ℕ → PollFd → Poller
modified w p idx pfd = record w { pollfds = set w.pollfds idx (refreshed (w.chans p) pfd) }

names_either : (z : ℤ) (fd : ℕ) → descriptor z ≡ fd → (eq_ℤ z (pos fd) || eq_ℤ z (negsuc fd)) ≡ true
names_either (pos n) fd h = ground arith
names_either (negsuc n) fd h = ground arith

module _ (w : Poller) (p : ℕ) (v : IsValid w) (e : Entry w (w.chans p).fd p)
    (mapped : w.channels (w.chans p).fd ≡ some p) where
  modify_channel_ok : modify_channel w p e.at ≡ ok (modified w p e.at e.pfd)
  unfolding modify_channel
  modify_channel_ok = rw (
    mapped,
    ==_refl p,
    lt→ltb _ _ (get_elem?_lt w.pollfds e.at e.stands),
    e.stands,
    names_either e.pfd.fd (w.chans p).fd e.names,
  )

  still : descriptor (refreshed (w.chans p) e.pfd).fd ≡ (w.chans p).fd
  still = elim (Bool-cases (is_none_event (w.chans p))) [ inl t ↦ rw t | inr t ↦ rw t e.names ]

  here :
      get_elem? (set w.pollfds e.at (refreshed (w.chans p) e.pfd)) e.at
      ≡ some (refreshed (w.chans p) e.pfd)
  here = get_elem?-set_self w.pollfds e.at _ (get_elem?_lt w.pollfds e.at e.stands)

  modified-IsValid : IsValid (modified w p e.at e.pfd)
  modified-IsValid = record { known = known; listed = listed }
    where
      known : (fd q : ℕ) → w.channels fd ≡ some q → Entry (modified w p e.at e.pfd) fd q
      known fd q h =
          let o : Entry w fd q = v.known fd q h in
          elim (ℕ_discrete e.at o.at) [
            | yes s ↦
                let same : e.pfd ≡ o.pfd =
                  some_inj (sym e.stands ∙ ap (get_elem? w.pollfds) s ∙ o.stands) in
                record {
                  same_fd = o.same_fd;
                  at = e.at;
                  pfd = refreshed (w.chans p) e.pfd;
                  index = o.index ∙ ap pos (sym s);
                  stands = here;
                  names = still ∙ sym e.names ∙ ap (λ (t : PollFd). descriptor t.fd) same ∙ o.names;
                }
            | no s ↦ record {
              same_fd = o.same_fd;
              at = o.at;
              pfd = o.pfd;
              index = o.index;
              stands = get_elem?-set_ne w.pollfds e.at o.at _ s ∙ o.stands;
              names = o.names;
            }
          ]

      listed :
          (i : ℕ) (pfd : PollFd)
          → get_elem? (set w.pollfds e.at (refreshed (w.chans p) e.pfd)) i ≡ some pfd
          → Owner (modified w p e.at e.pfd) i pfd
      listed i pfd h = elim (ℕ_discrete e.at i) [
        | yes s ↦
            let same : refreshed (w.chans p) e.pfd ≡ pfd =
              some_inj (sym here ∙ ap (get_elem? _) s ∙ h) in
            subst (Owner (modified w p e.at e.pfd) i) same (record {
              channel = p;
              mapped = ap w.channels still ∙ mapped;
              index = e.index ∙ ap pos s;
            })
        | no s ↦
            let o : Owner w i pfd =
              v.listed i pfd (sym (get_elem?-set_ne w.pollfds e.at i _ s) ∙ h) in
            record { channel = o.channel; mapped = o.mapped; index = o.index }
      ]

-- A new channel is entered: `updateChannel` succeeds, keeps the invariant, stores the channel under
-- its descriptor and gives it the entry at the end, which asks for its events.
pub update_channel_new :
    (w : Poller) (p : ℕ)
    → IsValid w
    → IsNew w p
    → (w' : Poller) × (update_channel w.thread w p ≡ ok w')
      × IsValid w'
      × (w'.channels (w.chans p).fd ≡ some p)
      × ((w'.chans p).index ≡ pos (length w.pollfds))
      × (get_elem? w'.pollfds (length w.pollfds)
          ≡ some
              (record { fd = pos (w.chans p).fd; events = short (w.chans p).event; revents = 0 }))
unfolding update_channel update_at_index
update_channel_new w p v n = (
  added w p,
  rw (==_refl w.thread, n.index) (add_channel_ok w p n),
  added-IsValid w p v n,
  update_at_self w.channels (w.chans p).fd (some p),
  ap (λ (t : Channel). t.index) (at_p w p v n),
  get_elem?-append_end w.pollfds _,
)

-- A known channel is refreshed: `updateChannel` succeeds, keeps the invariant, the map and the
-- channels, and its entry asks for its events; the descriptor of the entry is switched off where no
-- event is wanted, and else left as it was.
update_channel_known :
    (w : Poller) (p : ℕ)
    → IsValid w
    → w.channels (w.chans p).fd ≡ some p
    → (e : Entry w (w.chans p).fd p) × (update_channel w.thread w p ≡ ok (modified w p e.at e.pfd))
      × IsValid (modified w p e.at e.pfd)
      × (get_elem? (modified w p e.at e.pfd).pollfds e.at ≡ some (refreshed (w.chans p) e.pfd))
unfolding update_channel update_at_index
update_channel_known w p v h =
    let e : Entry w (w.chans p).fd p = v.known (w.chans p).fd p h in
    (
      e,
      rw (==_refl w.thread, e.index) (modify_channel_ok w p v e h),
      modified-IsValid w p v e h,
      here w p v e h,
    )

-- From another thread the process ends.
update_channel_foreign :
    (caller : ℕ) (w : Poller) (p : ℕ) → w.thread ≢ caller → update_channel caller w p ≡ fault fatal
unfolding update_channel
update_channel_foreign caller w p h = rw (ne→==_false w.thread caller h)

-- Once the entry of a known channel is switched off, `updateChannel` never switches it on: whatever
-- events the channel asks for, the entry keeps its negative descriptor.
update_channel_off :
    (w : Poller) (p : ℕ) (e : Entry w (w.chans p).fd p)
    → IsValid w
    → w.channels (w.chans p).fd ≡ some p
    → e.pfd.fd ≡ negsuc (w.chans p).fd
    → (w' : Poller) × (update_channel w.thread w p ≡ ok w')
      × (get_elem? w'.pollfds e.at
          ≡ some (record {
            fd = negsuc (w.chans p).fd;
            events = short (w.chans p).event;
            revents = 0;
          }))
unfolding update_channel update_at_index
update_channel_off w p e v h off =
    let still_off : (if is_none_event (w.chans p) then negsuc (w.chans p).fd else e.pfd.fd)
        ≡ negsuc (w.chans p).fd =
      elim (Bool-cases (is_none_event (w.chans p))) [ inl t ↦ rw t | inr t ↦ rw t off ] in
    (
      modified w p e.at e.pfd,
      rw (==_refl w.thread, e.index) (modify_channel_ok w p v e h),
      here w p v e h
          ∙ ap (λ z. some (record { fd = z; events = short (w.chans p).event; revents = 0 }))
              still_off,
    )
