-- ===== src/Reactor/Epoller/Remove.antt =====
-- epoller.cpp: `removeChannel`.
use tcp_net_library.Base.{ℕ, ◌≡◌, refl, ap, ◌∙◌, true, Option, none, some, ℤ, ok, ==_refl}
use tcp_net_library.Reactor.Channel.{Channel, is_none_event}
use tcp_net_library.Reactor.Poller.{update_at}
use tcp_net_library.Reactor.Poller.Invariant.{update_at_self, update_at_ne}
use tcp_net_library.Reactor.Epoller.{Epoller, EpollCalls, new, remove_channel}
use tcp_net_library.Reactor.Epoller.Watched.{
  Agrees, on, off, free, IsValid, Changed, Changed-IsValid,
}
use tcp_net_library.Reactor.Epoller.Control.{
  After, After-here, After-same, del_ctl_ok, at_index, index_self, at_index-Changed, held_of,
}

module _ {k : EpollCalls} (w : Epoller k) (p : ℕ) where
  -- What `removeChannel` leaves.
  pub record Removed (w' : Epoller k) : Type 0 where
    pub valid : IsValid w'
    pub unmapped : w'.channels (w.chans p).fd ≡ none
    pub unwatched : k.watched w'.kernel (w.chans p).fd ≡ none
    pub index : (w'.chans p).index ≡ new
    pub others : Changed w w' p

  abbrev out : ℕ → Option ℕ
  out = update_at w.channels (w.chans p).fd none

  removed_lem : IsValid w → (t : k.Set) → After w p t none → Removed (at_index w p out new t)
  removed_lem v t a =
      let gone : out (w.chans p).fd ≡ none = update_at_self w.channels (w.chans p).fd none in
      let c = at_index-Changed w p out new t none (update_at_ne w.channels (w.chans p).fd none) a in
      record {
        valid = Changed-IsValid w _ p v c (rw gone (free (After-here w p t none a)));
        unmapped = gone;
        unwatched = After-here w p t none a;
        index = ap (λ (x : Channel). x.index) (index_self w p out new t);
        others = c;
      }

  remove_at_ok :
      (held : Option (ℕ × ℕ)) (i : ℤ)
      → IsValid w
      → w.channels (w.chans p).fd ≡ some p
      → is_none_event (w.chans p) ≡ true
      → k.watched w.kernel (w.chans p).fd ≡ held
      → (w.chans p).index ≡ i
      → Agrees p held i
      → (w' : Epoller k) × (remove_channel w.thread w p ≡ ok w') × Removed w'
  unfolding remove_channel
  remove_at_ok held i v m n eh ei (on e ia ih) =
      let (t, r, a) = del_ctl_ok w p out _ (eh ∙ ih) in
      (
        at_index w p out new t,
        rw (==_refl w.thread, m, ==_refl p, n, ei, ia) (rw r),
        removed_lem v t a,
      )
  remove_at_ok held i v m n eh ei (off ia ih) = (
    at_index w p out new w.kernel,
    rw (==_refl w.thread, m, ==_refl p, n, ei, ia),
    removed_lem v w.kernel (After-same w p none (eh ∙ ih)),
  )

  -- In a valid epoller, `removeChannel` of a mapped channel that wants no event, on the loop's thread,
  -- succeeds and keeps the epoller valid. The kernel does not watch the descriptor any more, nothing
  -- is mapped to it, and the channel is new again. No other descriptor and no other channel is changed.
  pub remove_channel-Removed :
      IsValid w
      → w.channels (w.chans p).fd ≡ some p
      → is_none_event (w.chans p) ≡ true
      → (w' : Epoller k) × (remove_channel w.thread w p ≡ ok w') × Removed w'
  remove_channel-Removed v m n = remove_at_ok _ _ v m n refl refl (held_of w p v m)
