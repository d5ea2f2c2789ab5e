-- ===== src/Reactor/Poller/Remove.antt =====
-- poller.cpp: the entries in `removeChannel`.
use native.Mathlib.Decide.{ℕ_discrete}
use tcp_net_library.Base.{
  ℕ, ◌-◌, ◌<◌, ◌≡◌, ◌≢◌, ap, sym, subst, ◌∙◌, arith, Option, none, some, some_inj, length,
  length-take, take, get_elem?, get_elem?_lt, get_elem?-set_self, get_elem?-set_ne, get_elem?-take,
  set, ok, ==_refl, ne→==_false, lt→ltb, pos,
}
use tcp_net_library.Reactor.Channel.{Channel, set_index}
use tcp_net_library.Reactor.Poller.{PollFd, Poller, descriptor, update_at, swap_remove, remove_at}
use tcp_net_library.Reactor.Poller.Invariant.{IsValid, Entry, Owner, update_at_self, update_at_ne}

pos_inj : {a b : ℕ} → pos a ≡ pos b → a ≡ b
pos_inj h = cc

module _ (w : Poller) (p : ℕ) (v : IsValid w) (e : Entry w (w.chans p).fd p)
    (mapped : w.channels (w.chans p).fd ≡ some p) where
  abbrev pub gone : ℕ → Option ℕ
  gone = update_at w.channels (w.chans p).fd none

  abbrev size : ℕ
  size = length w.pollfds

  pub at_lt : e.at < size
  at_lt = get_elem?_lt w.pollfds e.at e.stands

  gone_ne : (fd q : ℕ) → gone fd ≡ some q → fd ≢ (w.chans p).fd
  gone_ne fd q h g = cc (update_at_self w.channels (w.chans p).fd none, ap gone g, h)

  gone_old : (fd q : ℕ) → gone fd ≡ some q → w.channels fd ≡ some q
  gone_old fd q h = sym (update_at_ne w.channels (w.chans p).fd none fd (gone_ne fd q h)) ∙ h

  -- A channel of another descriptor has another entry.
  other_at : (fd q : ℕ) (g : gone fd ≡ some q) (o : Entry w fd q) → o.at ≢ e.at
  other_at fd q g o s =
      let same : o.pfd ≡ e.pfd = some_inj (sym o.stands ∙ ap (get_elem? w.pollfds) s ∙ e.stands) in
      gone_ne fd q g (sym o.names ∙ ap (λ (t : PollFd). descriptor t.fd) same ∙ e.names)

  -- The owner of another entry is still in the map.
  other_mapped :
      (i : ℕ) (pfd : PollFd) (o : Owner w i pfd)
      → i ≢ e.at
      → gone (descriptor pfd.fd) ≡ some o.channel
  other_mapped i pfd o h = update_at_ne w.channels (w.chans p).fd none _ differs ∙ o.mapped
    where
      differs : descriptor pfd.fd ≢ (w.chans p).fd
      differs g =
          let same : o.channel ≡ p = some_inj (sym o.mapped ∙ ap w.channels g ∙ mapped) in
          h (pos_inj (sym o.index ∙ ap (λ t. (w.chans t).index) same ∙ e.index))

  abbrev pub popped : Poller
  popped = record w { pollfds = take (size - 1) w.pollfds; channels = gone }

  pub popped-IsValid : e.at ≡ size - 1 → IsValid popped
  popped-IsValid last = record {
    known = λ fd q g.
        let o : Entry w fd q = v.known fd q (gone_old fd q g) in
        let l : o.at < size - 1 =
          omega (arith, get_elem?_lt w.pollfds o.at o.stands, other_at fd q g o) in
        record {
          same_fd = o.same_fd;
          at = o.at;
          pfd = o.pfd;
          index = o.index;
          stands = get_elem?-take w.pollfds (size - 1) o.at l ∙ o.stands;
          names = o.names;
        };
    listed = λ i pfd g.
        let l : i < size - 1 =
          omega (
            arith,
            get_elem?_lt (take (size - 1) w.pollfds) i g,
            length-take (size - 1) w.pollfds,
          ) in
        let o : Owner w i pfd =
          v.listed i pfd (sym (get_elem?-take w.pollfds (size - 1) i l) ∙ g) in
        record {
          channel = o.channel;
          mapped = other_mapped i pfd o (omega arith);
          index = o.index;
        };
  }

  module _ (inner : e.at ≢ size - 1) (end : PollFd)
      (is_end : get_elem? w.pollfds (size - 1) ≡ some end) (o : Owner w (size - 1) end) where
    abbrev pub swapped : Poller
    swapped = record w {
      pollfds = swap_remove w.pollfds e.at end;
      channels = gone;
      chans = update_at w.chans o.channel (set_index (w.chans o.channel) (pos e.at));
    }

    moved_here : get_elem? swapped.pollfds e.at ≡ some end
    moved_here =
        get_elem?-take (set w.pollfds e.at end) (size - 1) e.at (omega (arith, at_lt))
        ∙ get_elem?-set_self w.pollfds e.at end at_lt

    stays : (i : ℕ) → i ≢ e.at → i < size - 1 → get_elem? swapped.pollfds i ≡ get_elem? w.pollfds i
    stays i h l =
        get_elem?-take (set w.pollfds e.at end) (size - 1) i l
        ∙ get_elem?-set_ne w.pollfds e.at i end (λ s. h (sym s))

    at_end : swapped.chans o.channel ≡ set_index (w.chans o.channel) (pos e.at)
    at_end = update_at_self w.chans o.channel _

    -- A channel with another index is left alone.
    pub untouched :
        (q i : ℕ) → (w.chans q).index ≡ pos i → i ≢ size - 1 → swapped.chans q ≡ w.chans q
    untouched q i h n =
        update_at_ne w.chans o.channel _ q
          λ s. n (pos_inj (sym h ∙ ap (λ t. (w.chans t).index) s ∙ o.index))

    swapped-known : (fd q : ℕ) → gone fd ≡ some q → Entry swapped fd q
    swapped-known fd q g =
        let k : Entry w fd q = v.known fd q (gone_old fd q g) in
        elim (ℕ_discrete k.at (size - 1)) [
          | yes s ↦
              let same : k.pfd ≡ end =
                some_inj (sym k.stands ∙ ap (get_elem? w.pollfds) s ∙ is_end) in
              let named : descriptor end.fd ≡ fd =
                sym (ap (λ (t : PollFd). descriptor t.fd) same) ∙ k.names in
              let owner : o.channel ≡ q =
                some_inj (sym o.mapped ∙ ap w.channels named ∙ gone_old fd q g) in
              let chan : swapped.chans q ≡ set_index (w.chans o.channel) (pos e.at) =
                ap swapped.chans (sym owner) ∙ at_end in
              record {
                same_fd =
                    ap (λ (t : Channel). t.fd) chan ∙ ap (λ t. (w.chans t).fd) owner ∙ k.same_fd;
                at = e.at;
                pfd = end;
                index = ap (λ (t : Channel). t.index) chan;
                stands = moved_here;
                names = named;
              }
          | no n ↦
              let chan = untouched q k.at k.index n in
              record {
                same_fd = ap (λ (t : Channel). t.fd) chan ∙ k.same_fd;
                at = k.at;
                pfd = k.pfd;
                index = ap (λ (t : Channel). t.index) chan ∙ k.index;
                stands =
                    stays k.at (other_at fd q g k)
                      (omega (arith, get_elem?_lt w.pollfds k.at k.stands))
                    ∙ k.stands;
                names = k.names;
              }
        ]

    swapped-listed :
        (i : ℕ) (pfd : PollFd) → get_elem? swapped.pollfds i ≡ some pfd → Owner swapped i pfd
    swapped-listed i pfd g =
        let l : i < size - 1 = omega (
          arith,
          get_elem?_lt swapped.pollfds i g,
          length-take (size - 1) (set w.pollfds e.at end),
        ) in
        elim (ℕ_discrete i e.at) [
          | yes s ↦
              let same : end ≡ pfd = some_inj (sym moved_here ∙ ap (get_elem? _) (sym s) ∙ g) in
              subst (Owner swapped i) same (record {
                channel = o.channel;
                mapped = other_mapped (size - 1) end o (λ t. inner (sym t));
                index = ap (λ (t : Channel). t.index) at_end ∙ ap pos (sym s);
              })
          | no n ↦
              let k : Owner w i pfd = v.listed i pfd (sym (stays i n l) ∙ g) in
              record {
                channel = k.channel;
                mapped = other_mapped i pfd k n;
                index =
                    ap (λ (t : Channel). t.index) (untouched k.channel i k.index (omega arith))
                    ∙ k.index;
              }
        ]

    pub swapped-IsValid : IsValid swapped
    swapped-IsValid = record { known = swapped-known; listed = swapped-listed }

    pub remove_at_inner : remove_at w p e.at ≡ ok swapped
    unfolding remove_at
    remove_at_inner = rw (
      lt→ltb _ _ at_lt,
      ne→==_false _ _ inner,
      is_end,
      other_mapped (size - 1) end o (λ t. inner (sym t)),
    )

  pub remove_at_last : e.at ≡ size - 1 → remove_at w p e.at ≡ ok popped
  unfolding remove_at
  remove_at_last h = rw (lt→ltb _ _ at_lt, h, ==_refl (size - 1))
