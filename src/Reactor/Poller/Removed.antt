-- ===== src/Reactor/Poller/Removed.antt =====
-- poller.cpp: `removeChannel`, and `updateChannel` after it.
use native.Mathlib.Decide.{ℕ_discrete}
use tcp_net_library.Base.{
  ℕ, ◌+◌, ◌-◌, ◌≡◌, refl, ap, sym, subst, ◌∙◌, true, arith, none, some, length, length-set,
  length-take, set, get_elem?-some, ok, fault, assert_failed, ==_refl, pos, ◌==◌, if◌then◌else◌,
}
use tcp_net_library.Reactor.Channel.{Channel, is_none_event}
use tcp_net_library.Reactor.Poller.{
  Poller, remove_at, remove_at_index, remove_channel, update_channel, update_at_index,
  modify_channel,
}
use tcp_net_library.Reactor.Poller.Invariant.{IsValid, Entry, Owner}
use tcp_net_library.Reactor.Poller.Remove.{
  at_lt, popped, popped-IsValid, swapped, swapped-IsValid, untouched, remove_at_inner,
  remove_at_last,
}

-- `w'` is `w` without the channel `p`.
pub record Removed (w : Poller) (p : ℕ) (w' : Poller) : Type 0 where
  pub valid : IsValid w'
  pub channels : (fd : ℕ) → w'.channels fd ≡ (if fd == (w.chans p).fd then none else w.channels fd)
  pub fewer : length w'.pollfds + 1 ≡ length w.pollfds
  pub same_thread : w'.thread ≡ w.thread
  pub same_chan : w'.chans p ≡ w.chans p

module _ (w : Poller) (p : ℕ) (v : IsValid w) (mapped : w.channels (w.chans p).fd ≡ some p)
    (e : Entry w (w.chans p).fd p) where
  remove_at_ok : (w' : Poller) × (remove_at w p e.at ≡ ok w') × Removed w p w'
  remove_at_ok = elim (ℕ_discrete e.at (length w.pollfds - 1)) [
    | yes s ↦ (
      popped w p v e mapped,
      remove_at_last w p v e mapped s,
      record {
        valid = popped-IsValid w p v e mapped s;
        channels = λ fd. refl;
        fewer = omega (arith, at_lt w p v e mapped, length-take (length w.pollfds - 1) w.pollfds);
        same_thread = refl;
        same_chan = refl;
      },
    )
    | no n ↦
        let (end, is_end) =
          get_elem?-some w.pollfds (length w.pollfds - 1) (omega (arith, at_lt w p v e mapped)) in
        let o : Owner w (length w.pollfds - 1) end = v.listed _ end is_end in
        (
          swapped w p v e mapped n end is_end o,
          remove_at_inner w p v e mapped n end is_end o,
          record {
            valid = swapped-IsValid w p v e mapped n end is_end o;
            channels = λ fd. refl;
            fewer = omega (
              arith,
              at_lt w p v e mapped,
              length-take (length w.pollfds - 1) (set w.pollfds e.at end),
              length-set w.pollfds e.at end,
            );
            same_thread = refl;
            same_chan = untouched w p v e mapped n end is_end o p e.at e.index n;
          },
        )
  ]

-- On a known channel that watches no event, `removeChannel` succeeds and keeps the invariant: the
-- descriptor leaves the map, the others keep their channels, one entry goes.
pub remove_channel_ok :
    (w : Poller) (p : ℕ)
    → IsValid w
    → w.channels (w.chans p).fd ≡ some p
    → (w.chans p).event ≡ 0
    → (w' : Poller) × (remove_channel w.thread w p ≡ ok w') × Removed w p w'
unfolding remove_channel remove_at_index
remove_channel_ok w p v mapped idle =
    let e = v.known (w.chans p).fd p mapped in
    let still : is_none_event (w.chans p) ≡ true = rw idle in
    rw (==_refl w.thread, mapped, ==_refl p, still, e.index) (remove_at_ok w p v mapped e)

unseen :
    (w x : Poller) (p i : ℕ)
    → Removed w p x
    → (w.chans p).index ≡ pos i
    → update_channel x.thread x p ≡ fault assert_failed
unfolding update_channel update_at_index modify_channel
unseen w x p i r h =
    let index : (x.chans p).index ≡ pos i = ap (λ (t : Channel). t.index) r.same_chan ∙ h in
    let out : x.channels (x.chans p).fd ≡ none =
      ap (λ (t : Channel). x.channels t.fd) r.same_chan
      ∙ r.channels (w.chans p).fd
      ∙ rw (==_refl (w.chans p).fd) in
    rw (==_refl x.thread, index, out)

ok_inj {ℓ} : {A : Type ℓ} {a b : A} → ok a ≡ ok b → a ≡ b
ok_inj h = cc

-- The index of the channel stays, so a channel that was removed cannot be entered again: the
-- assertion on the map fails in `updateChannel`.
pub remove-update_channel :
    (w w' : Poller) (p : ℕ)
    → IsValid w
    → w.channels (w.chans p).fd ≡ some p
    → (w.chans p).event ≡ 0
    → remove_channel w.thread w p ≡ ok w'
    → update_channel w'.thread w' p ≡ fault assert_failed
remove-update_channel w w' p v mapped idle done =
    let (x, q, r) = remove_channel_ok w p v mapped idle in
    let same : x ≡ w' = ok_inj (sym q ∙ done) in
    let e = v.known (w.chans p).fd p mapped in
    subst (λ t. update_channel t.thread t p ≡ fault assert_failed) same
      (unseen w x p e.at r e.index)
