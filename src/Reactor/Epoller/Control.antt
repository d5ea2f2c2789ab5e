-- ===== src/Reactor/Epoller/Control.antt =====
-- epoller.cpp: the calls of `epoll_ctl` in `update`, and the states that they lead to.
use native.Mathlib.Decide.{ℕ_discrete}
use tcp_net_library.Base.{
  ℕ, ◌≡◌, ◌≢◌, sym, ap, subst, ◌∙◌, Option, none, some, ◌==◌, if◌then◌else◌, ℤ, ok, fault, fatal,
  ==_refl, ne→==_false,
}
use tcp_net_library.Reactor.Channel.{Channel, set_index}
use tcp_net_library.Reactor.Poller.Invariant.{update_at_self, update_at_ne}
use tcp_net_library.Reactor.Epoller.{
  Epoller, EpollCalls, Operation, added, set_kernel, index_as, update, after_ctl,
}
use tcp_net_library.Reactor.Epoller.Watched.{Agrees, Slot, known, free, IsValid, Changed}

module _ {k : EpollCalls} (w : Epoller k) (p : ℕ) where
  -- A kernel's set that differs at the channel's descriptor.
  abbrev pub After : k.Set → Option (ℕ × ℕ) → Type 0
  After t held =
      (g : ℕ) → k.watched t g ≡ (if g == (w.chans p).fd then held else k.watched w.kernel g)

  pub After-here :
      (t : k.Set) (held : Option (ℕ × ℕ)) → After t held → k.watched t (w.chans p).fd ≡ held
  After-here t held a = a (w.chans p).fd ∙ rw (==_refl (w.chans p).fd)

  pub After-away :
      (t : k.Set) (held : Option (ℕ × ℕ))
      → After t held
      → (g : ℕ) → g ≢ (w.chans p).fd
      → k.watched t g ≡ k.watched w.kernel g
  After-away t held a g h = a g ∙ rw (ne→==_false g (w.chans p).fd h)

  pub After-same :
      (held : Option (ℕ × ℕ)) → k.watched w.kernel (w.chans p).fd ≡ held → After w.kernel held
  After-same held h g = elim (ℕ_discrete g (w.chans p).fd) [
    | yes e ↦ ap (k.watched w.kernel) e ∙ h ∙ sym (rw (e, ==_refl (w.chans p).fd))
    | no e ↦ rw (ne→==_false g (w.chans p).fd e)
  ]

  -- `EPOLL_CTL_ADD`, which follows `setIndex(kAdded)`
  pub add_ctl_ok :
      (m : ℕ → Option ℕ) (t : k.Set)
      → k.watched w.kernel (w.chans p).fd ≡ none
      → k.ctl w.kernel Operation.add (w.chans p).fd ((w.chans p).event, p) ≡ some t
      → (update (index_as (record w { channels = m }) p added) Operation.add p
          ≡ ok (set_kernel (index_as (record w { channels = m }) p added) t))
        × After t (some ((w.chans p).event, p))
  unfolding update after_ctl
  add_ctl_ok m t unheld e =
      (rw (==_refl p, e), k.add_law w.kernel t (w.chans p).fd ((w.chans p).event, p) unheld e)

  pub add_ctl_fault :
      (m : ℕ → Option ℕ)
      → k.ctl w.kernel Operation.add (w.chans p).fd ((w.chans p).event, p) ≡ none
      → update (index_as (record w { channels = m }) p added) Operation.add p ≡ fault fatal
  unfolding update after_ctl
  add_ctl_fault m e = rw (==_refl p, e)

  pub mod_ctl_ok :
      (t : k.Set) (old : ℕ × ℕ)
      → k.watched w.kernel (w.chans p).fd ≡ some old
      → k.ctl w.kernel Operation.mod_ (w.chans p).fd ((w.chans p).event, p) ≡ some t
      → (update w Operation.mod_ p ≡ ok (set_kernel w t)) × After t (some ((w.chans p).event, p))
  unfolding update after_ctl
  mod_ctl_ok t old h e = (rw e, k.mod_law w.kernel t (w.chans p).fd ((w.chans p).event, p) old h e)

  pub mod_ctl_fault :
      k.ctl w.kernel Operation.mod_ (w.chans p).fd ((w.chans p).event, p) ≡ none
      → update w Operation.mod_ p ≡ fault fatal
  unfolding update after_ctl
  mod_ctl_fault e = rw e

  pub del_ctl_ok :
      (m : ℕ → Option ℕ) (old : ℕ × ℕ)
      → k.watched w.kernel (w.chans p).fd ≡ some old
      → (t : k.Set) × (update (record w { channels = m }) Operation.del p
          ≡ ok (set_kernel (record w { channels = m }) t))
        × After t none
  unfolding update after_ctl
  del_ctl_ok m old h =
      let (t, e, a) = k.del_ok w.kernel (w.chans p).fd ((w.chans p).event, p) old h in (t, rw e, a)

  abbrev pub at_index : (ℕ → Option ℕ) → ℤ → k.Set → Epoller k
  at_index m i t = set_kernel (index_as (record w { channels = m }) p i) t

  pub index_self :
      (m : ℕ → Option ℕ) (i : ℤ) (t : k.Set) → (at_index m i t).chans p ≡ set_index (w.chans p) i
  index_self m i t = update_at_self w.chans p _

  pub at_index-Changed :
      (m : ℕ → Option ℕ) (i : ℤ) (t : k.Set) (held : Option (ℕ × ℕ))
      → ((g : ℕ) → g ≢ (w.chans p).fd → m g ≡ w.channels g)
      → After t held
      → Changed w (at_index m i t) p
  at_index-Changed m i t held e a = record {
    channels = e;
    chans = λ q h. update_at_ne w.chans p _ q h;
    watched = After-away t held a;
  }

  pub at_index-Slot :
      (m : ℕ → Option ℕ) (i : ℤ) (t : k.Set) (held : Option (ℕ × ℕ))
      → m (w.chans p).fd ≡ some p
      → Agrees p held i
      → After t held
      → Slot (at_index m i t).chans (w.chans p).fd (k.watched t (w.chans p).fd) (m (w.chans p).fd)
  at_index-Slot m i t held e s a =
      rw (e, After-here t held a)
        (known (ap (λ (c : Channel). c.fd) (index_self m i t))
          (subst (Agrees p held) (ap (λ (c : Channel). c.index) (sym (index_self m i t))) s))

  pub Slot-channel :
      (o : Option ℕ)
      → IsValid w
      → w.channels (w.chans p).fd ≡ o
      → Slot w.chans (w.chans p).fd (k.watched w.kernel (w.chans p).fd) o
  Slot-channel o v h = subst (Slot w.chans _ _) h (v (w.chans p).fd)

  pub held_of :
      {q : ℕ}
      → IsValid w
      → w.channels (w.chans p).fd ≡ some q
      → Agrees q (k.watched w.kernel (w.chans p).fd) (w.chans q).index
  held_of v h = elim (Slot-channel _ v h) [ known own a ↦ a ]

  pub free_of :
      IsValid w → w.channels (w.chans p).fd ≡ none → k.watched w.kernel (w.chans p).fd ≡ none
  free_of v h = elim (Slot-channel _ v h) [ free a ↦ a ]
