-- ===== src/Reactor/Epoller/Update.antt =====
-- epoller.cpp: `updateChannel` of new, deleted and added channels.
use tcp_net_library.Base.{
  ℕ, ◌≡◌, ◌≢◌, inl, inr, refl, ◌∙◌, false, ◌&&◌, Option, none, some, if◌then◌else◌, ℤ, eq_ℤ, ok,
  fault, fatal, Result, subst, sym, Option-cases, ==_refl, Bool-cases,
}
use tcp_net_library.Reactor.Channel.{is_none_event}
use tcp_net_library.Reactor.Poller.{update_at}
use tcp_net_library.Reactor.Poller.Invariant.{update_at_self, update_at_ne}
use tcp_net_library.Reactor.Epoller.{
  Epoller, EpollCalls, Operation, new, added, deleted, set_kernel, index_as, update, update_new,
  update_deleted, update_added, update_channel,
}
use tcp_net_library.Reactor.Epoller.Watched.{
  Agrees, known, on, off, IsValid, Changed, Changed-IsValid,
}
use tcp_net_library.Reactor.Epoller.Control.{
  After-here, add_ctl_ok, add_ctl_fault, mod_ctl_ok, mod_ctl_fault, del_ctl_ok, at_index,
  at_index-Changed, at_index-Slot, held_of, free_of, After-away,
}

module _ {k : EpollCalls} (w : Epoller k) (p : ℕ) where
  -- The slot of a channel that `updateChannel` may be called with.
  pub data MayUpdate : Type 0 where
    fresh : (w.chans p).index ≡ new → w.channels (w.chans p).fd ≡ none → MayUpdate
    mapped : w.channels (w.chans p).fd ≡ some p → MayUpdate

  -- A channel that was watched and wants no event any more is let go.
  abbrev pub wanted : Option (ℕ × ℕ)
  wanted =
      if eq_ℤ (w.chans p).index added && is_none_event (w.chans p)
      then none
      else some ((w.chans p).event, p)

  pub record Updated (w' : Epoller k) : Type 0 where
    pub valid : IsValid w'
    pub mapped : w'.channels (w.chans p).fd ≡ some p
    pub watched : k.watched w'.kernel (w.chans p).fd ≡ wanted
    pub others : Changed w w' p

  -- What the kernel is asked for where the channel is to be watched.
  abbrev pub asked : Operation
  asked = if eq_ℤ (w.chans p).index added then Operation.mod_ else Operation.add

  -- The channel is updated, or it is to be watched and the kernel refuses: that ends the process.
  pub data Ended (r : Result (Epoller k)) : Type 0 where
    done : (w' : Epoller k) → r ≡ ok w' → Updated w' → Ended r
    refused :
        r ≡ fault fatal
        → wanted ≡ some ((w.chans p).event, p)
        → k.ctl w.kernel asked (w.chans p).fd ((w.chans p).event, p) ≡ none
        → Ended r

  ended_by : (r s : Result (Epoller k)) → s ≡ r → Ended r → Ended s
  ended_by r s h e = subst Ended (sym h) e

  added_again :
      (m : ℕ → Option ℕ)
      → IsValid w
      → k.watched w.kernel (w.chans p).fd ≡ none
      → (eq_ℤ (w.chans p).index added) ≡ false
      → m (w.chans p).fd ≡ some p
      → ((g : ℕ) → g ≢ (w.chans p).fd → m g ≡ w.channels g)
      → Ended (update (index_as (record w { channels = m }) p added) Operation.add p)
  added_again m v h i here away =
      elim (Option-cases (k.ctl w.kernel Operation.add (w.chans p).fd ((w.chans p).event, p))) [
        | inl n ↦ refused (add_ctl_fault w p m n) (rw i) (rw i n)
        | inr (t, y) ↦
            let (e, a) = add_ctl_ok w p m t h y in
            let c = at_index-Changed w p m added t _ away a in
            done (at_index w p m added t) e (record {
              valid =
                  Changed-IsValid w _ p v c
                    (at_index-Slot w p m added t _ here (on (w.chans p).event refl refl) a);
              mapped = here;
              watched = rw i (After-here w p t _ a);
              others = c;
            })
      ]

  update_new_ok :
      IsValid w
      → (w.chans p).index ≡ new
      → w.channels (w.chans p).fd ≡ none
      → Ended (update_new w p)
  unfolding update_new
  update_new_ok v i m = ended_by _ _ (rw m) (
      added_again (update_at w.channels (w.chans p).fd (some p)) v (free_of w p v m) (rw i)
        (update_at_self w.channels (w.chans p).fd (some p))
        (λ g h. update_at_ne w.channels (w.chans p).fd (some p) g h))

  update_deleted_ok :
      IsValid w
      → (w.chans p).index ≡ deleted
      → k.watched w.kernel (w.chans p).fd ≡ none
      → w.channels (w.chans p).fd ≡ some p
      → Ended (update_deleted w p)
  unfolding update_deleted
  update_deleted_ok v i h m =
      ended_by _ _ (rw (m, ==_refl p)) (added_again w.channels v h (rw i) m (λ g _. refl))

  update_mod_ok :
      (old : ℕ)
      → IsValid w
      → (w.chans p).index ≡ added
      → k.watched w.kernel (w.chans p).fd ≡ some (old, p)
      → w.channels (w.chans p).fd ≡ some p
      → is_none_event (w.chans p) ≡ false
      → Ended (update w Operation.mod_ p)
  update_mod_ok old v i h m n =
      elim (Option-cases (k.ctl w.kernel Operation.mod_ (w.chans p).fd ((w.chans p).event, p))) [
        | inl y ↦ refused (mod_ctl_fault w p y) (rw (i, n)) (rw i y)
        | inr (t, y) ↦
            let (e, a) = mod_ctl_ok w p t _ h y in
            let c : Changed w (set_kernel w t) p = record {
              channels = λ g _. refl;
              chans = λ q _. refl;
              watched = After-away w p t _ a;
            } in
            done (set_kernel w t) e (record {
              valid =
                  Changed-IsValid w _ p v c
                    (rw (m, After-here w p t _ a) (known refl (on (w.chans p).event i refl)));
              mapped = m;
              watched = rw (i, n) (After-here w p t _ a);
              others = c;
            })
      ]

  update_added_ok :
      (old : ℕ)
      → IsValid w
      → (w.chans p).index ≡ added
      → k.watched w.kernel (w.chans p).fd ≡ some (old, p)
      → w.channels (w.chans p).fd ≡ some p
      → Ended (update_added w p)
  unfolding update_added
  update_added_ok old v i h m = elim (Bool-cases (is_none_event (w.chans p))) [
    | inl n ↦
        let (t, e, a) = del_ctl_ok w p w.channels _ h in
        let c = at_index-Changed w p w.channels deleted t _ (λ g _. refl) a in
        done (at_index w p w.channels deleted t) (rw (m, ==_refl p, n, e)) (record {
          valid =
              Changed-IsValid w _ p v c
                (at_index-Slot w p w.channels deleted t _ m (off refl refl) a);
          mapped = m;
          watched = rw (i, n) (After-here w p t _ a);
          others = c;
        })
    | inr n ↦ ended_by _ _ (rw (m, ==_refl p, n)) (update_mod_ok old v i h m n)
  ]

  known_channel_ok :
      (held : Option (ℕ × ℕ)) (i : ℤ)
      → IsValid w
      → w.channels (w.chans p).fd ≡ some p
      → k.watched w.kernel (w.chans p).fd ≡ held
      → (w.chans p).index ≡ i
      → Agrees p held i
      → Ended (update_channel w.thread w p)
  unfolding update_channel
  known_channel_ok held i v m eh ei (on e ia ih) =
      ended_by _ _ (rw (==_refl w.thread, ei, ia)) (update_added_ok e v (ei ∙ ia) (eh ∙ ih) m)
  known_channel_ok held i v m eh ei (off ia ih) =
      ended_by _ _ (rw (==_refl w.thread, ei, ia)) (update_deleted_ok v (ei ∙ ia) (eh ∙ ih) m)

  -- In a valid epoller, `updateChannel` of a new or a known channel on the loop's thread, whatever the
  -- kernel answers: the process ends exactly where the channel is to be watched and the kernel refuses
  -- to add it, or to change it where it is watched. Otherwise the call succeeds and keeps the epoller
  -- valid. The channel is then mapped, and the kernel watches its descriptor with its present events,
  -- unless it was watched before and wants none: then the kernel does not watch it. A channel that was
  -- let go is watched again. No other descriptor and no other channel is changed.
  pub update_channel-Updated : IsValid w → MayUpdate → Ended (update_channel w.thread w p)
  unfolding update_channel
  update_channel-Updated v (fresh i m) =
      ended_by _ _ (rw (==_refl w.thread, i)) (update_new_ok v i m)
  update_channel-Updated v (mapped m) = known_channel_ok _ _ v m refl refl (held_of w p v m)
