-- ===== src/Reactor/Poller/Polled.antt =====
-- poller.cpp: `poll`.
use tcp_net_library.Base.{
  ℕ, zero, suc, ◌+◌, ◌≡◌, refl, ap, sym, subst, ◌∙◌, List, [], ◌∷◌, arith, some, some_inj,
  get_elem?, ok,
}
use tcp_net_library.Reactor.Channel.{Channel}
use tcp_net_library.Reactor.Channel.Same.{SameWatch, SameWatch-refl}
use tcp_net_library.Reactor.Poller.{PollFd, Poller, descriptor, store_revents, poll}
use tcp_net_library.Reactor.Poller.Invariant.{IsValid, Owner}
use tcp_net_library.Reactor.Poller.Active.{Reports, Fires, none-Fires, ltb-suc, fill_active_ok}

store_back :
    (pfds : List PollFd) (rs : List ℕ) (i : ℕ) (x : PollFd)
    → get_elem? (store_revents pfds rs) i ≡ some x
    → (y : PollFd) × (get_elem? pfds i ≡ some y) × (y.fd ≡ x.fd)
store_back [] rs i x h = absurd (cc h)
store_back (p ∷ ps) [] i x h = (x, h, refl)
store_back (p ∷ ps) (r ∷ rs) zero x h = (p, refl, ap (λ (t : PollFd). t.fd) (some_inj h))
store_back (p ∷ ps) (r ∷ rs) (suc i) x h = store_back ps rs i x h

store_there :
    (pfds : List PollFd) (rs : List ℕ) (i : ℕ) (y : PollFd)
    → get_elem? pfds i ≡ some y
    → (x : PollFd) × (get_elem? (store_revents pfds rs) i ≡ some x) × (y.fd ≡ x.fd)
store_there [] rs i y h = absurd (cc h)
store_there (p ∷ ps) [] i y h = (y, h, refl)
store_there (p ∷ ps) (r ∷ rs) zero y h =
    (record p { revents = r }, refl, ap (λ (t : PollFd). t.fd) (sym (some_inj h)))
store_there (p ∷ ps) (r ∷ rs) (suc i) y h = store_there ps rs i y h

polled-IsValid :
    (w : Poller) (rs : List ℕ) (chans : ℕ → Channel)
    → IsValid w
    → SameWatch w.chans chans
    → IsValid (record w { pollfds = store_revents w.pollfds rs; chans = chans })
polled-IsValid w rs chans v s = record {
  known = λ fd p h.
      let e = v.known fd p h in
      let (x, g, d) = store_there w.pollfds rs e.at e.pfd e.stands in
      record {
        same_fd = (s p).0 ∙ e.same_fd;
        at = e.at;
        pfd = x;
        index = (s p).1 ∙ e.index;
        stands = g;
        names = ap descriptor (sym d) ∙ e.names;
      };
  listed = λ i x h.
      let (y, g, d) = store_back w.pollfds rs i x h in
      let o = v.listed i y g in
      record {
        channel = o.channel;
        mapped = ap (λ t. w.channels (descriptor t)) (sym d) ∙ o.mapped;
        index = (s o.channel).1 ∙ o.index;
      };
}

-- In a valid poller, `poll` fails no assertion on the kernel's answer: the active channels are those
-- of the entries with events, in the order of the entries, each channel has been given the events of
-- its own entry, and the poller stays valid.
pub poll-Fires :
    (w : Poller) (n : ℕ) (rs : List ℕ)
    → IsValid w
    → Reports w.pollfds rs n
    → (w' : Poller) × (ps : List ℕ) × (poll w (some (n, rs)) ≡ ok (w', ps))
      × Fires w.channels w'.chans w.pollfds rs ps
      × IsValid w'
unfolding poll
poll-Fires w zero rs v h = (
  record w { pollfds = store_revents w.pollfds rs },
  [],
  refl,
  none-Fires w.channels w.chans w.pollfds rs 0 refl h,
  polled-IsValid w rs w.chans v (SameWatch-refl w.chans),
)
poll-Fires w (suc n) rs v h =
    let (f, e, g) =
      fill_active_ok w 0 (suc n) w.pollfds rs (record { chans = w.chans; active = [] }) h
        (λ j pfd k.
          let z : j ≡ 0 + j = omega arith in subst (λ t. Owner w t pfd) z (v.listed j pfd k))
        (SameWatch-refl w.chans) in
    (
      record w { pollfds = store_revents w.pollfds rs; chans = f.chans },
      g.ps,
      rw (ltb-suc n, e, g.active),
      g.fires,
      polled-IsValid w rs f.chans v g.same,
    )
