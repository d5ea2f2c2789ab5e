-- ===== src/Reactor/Poller/Invariant.antt =====
-- poller.h: how the map, the entries and the indices of the channels belong together.
use native.Mathlib.Decide.{ℕ_discrete}
use tcp_net_library.Base.{
  ℕ, ◌-◌, ◌<◌, ◌≡◌, ◌≢◌, refl, ap, sym, subst, ◌∙◌, [], ◌∷◌, ◌++◌, arith, none, some, length,
  some_inj, length-append, get_elem?, get_elem?_lt, get_elem?-append_lt, get_elem?-append_end, ok,
  ==_refl, ne→==_false, pos, negsuc,
}
use tcp_net_library.Reactor.Channel.{Channel, set_index}
use tcp_net_library.Reactor.Poller.{PollFd, Poller, update_at, descriptor, add_channel, short}

pub update_at_self {ℓ} : {A : Type ℓ} (f : ℕ → A) (k : ℕ) (v : A) → update_at f k v k ≡ v
update_at_self f k v = rw (==_refl k)

pub update_at_ne {ℓ} :
    {A : Type ℓ} (f : ℕ → A) (k : ℕ) (v : A) (j : ℕ) → j ≢ k → update_at f k v j ≡ f j
update_at_ne f k v j h = rw (ne→==_false j k h)

-- The channel `p` of `fd` has its entry at its index.
pub record Entry (w : Poller) (fd p : ℕ) : Type 0 where
  pub same_fd : (w.chans p).fd ≡ fd
  pub at : ℕ
  pub pfd : PollFd
  pub index : (w.chans p).index ≡ pos at
  pub stands : get_elem? w.pollfds at ≡ some pfd
  pub names : descriptor pfd.fd ≡ fd

-- The entry at `i` belongs to a channel of the map, whose index is `i`.
pub record Owner (w : Poller) (i : ℕ) (pfd : PollFd) : Type 0 where
  pub channel : ℕ
  pub mapped : w.channels (descriptor pfd.fd) ≡ some channel
  pub index : (w.chans channel).index ≡ pos i

pub record IsValid (w : Poller) : Type 0 where
  pub known : (fd p : ℕ) → w.channels fd ≡ some p → Entry w fd p
  pub listed : (i : ℕ) (pfd : PollFd) → get_elem? w.pollfds i ≡ some pfd → Owner w i pfd

-- A channel that the poller has not seen, or has let go with its index reset.
pub record IsNew (w : Poller) (p : ℕ) : Type 0 where
  pub below : ℕ
  pub index : (w.chans p).index ≡ negsuc below
  pub unmapped : w.channels (w.chans p).fd ≡ none

abbrev pub added : Poller → ℕ → Poller
added w p = record w {
  pollfds = w.pollfds ++ fresh ∷ [];
  channels = update_at w.channels (w.chans p).fd (some p);
  chans = update_at w.chans p (set_index (w.chans p) (pos (length (w.pollfds ++ fresh ∷ []) - 1)));
}
  where
    fresh : PollFd
    fresh = record { fd = pos (w.chans p).fd; events = short (w.chans p).event; revents = 0 }

pub add_channel_ok : (w : Poller) (p : ℕ) → IsNew w p → add_channel w p ≡ ok (added w p)
unfolding add_channel
add_channel_ok w p n = rw n.unmapped

module _ (w : Poller) (p : ℕ) (v : IsValid w) (n : IsNew w p) where
  abbrev pub c : Channel
  c = w.chans p

  abbrev pub fresh : PollFd
  fresh = record { fd = pos c.fd; events = short c.event; revents = 0 }

  last : length (w.pollfds ++ fresh ∷ []) - 1 ≡ length w.pollfds
  last = omega (arith, length-append w.pollfds (fresh ∷ []))

  not_p : (q i : ℕ) → (w.chans q).index ≡ pos i → q ≢ p
  not_p q i e h = cc (n.index, subst (λ t. (w.chans t).index ≡ pos i) h e)

  kept : (q i : ℕ) → (w.chans q).index ≡ pos i → (added w p).chans q ≡ w.chans q
  kept q i e = update_at_ne w.chans p _ q (not_p q i e)

  pub at_p : (added w p).chans p ≡ set_index c (pos (length w.pollfds))
  at_p = update_at_self w.chans p _ ∙ ap (λ t. set_index c (pos t)) last

  pub own : Entry (added w p) c.fd p
  own = record {
    same_fd = ap (λ (t : Channel). t.fd) at_p;
    at = length w.pollfds;
    pfd = fresh;
    index = ap (λ (t : Channel). t.index) at_p;
    stands = get_elem?-append_end w.pollfds fresh;
    names = refl;
  }

  added-known : (fd q : ℕ) → (added w p).channels fd ≡ some q → Entry (added w p) fd q
  added-known fd q e = elim (ℕ_discrete fd c.fd) [
    | yes h ↦
        let same : p ≡ q =
          some_inj
            (sym (update_at_self w.channels c.fd (some p)) ∙ ap (added w p).channels (sym h) ∙ e) in
        subst (λ t. Entry (added w p) fd t) same (subst (λ t. Entry (added w p) t p) (sym h) own)
    | no h ↦
        let o : Entry w fd q =
          v.known fd q (rw (update_at_ne w.channels c.fd (some p) fd h) at e) in
        record {
          same_fd = rw (kept q o.at o.index) o.same_fd;
          at = o.at;
          pfd = o.pfd;
          index = rw (kept q o.at o.index) o.index;
          stands =
              get_elem?-append_lt w.pollfds (fresh ∷ []) o.at (get_elem?_lt w.pollfds o.at o.stands)
              ∙ o.stands;
          names = o.names;
        }
  ]

  added-listed :
      (i : ℕ) (pfd : PollFd) → get_elem? (added w p).pollfds i ≡ some pfd → Owner (added w p) i pfd
  added-listed i pfd e = elim (ℕ_discrete i (length w.pollfds)) [
    | yes h ↦
        let same : fresh ≡ pfd = some_inj (
          sym (get_elem?-append_end w.pollfds fresh)
          ∙ ap (get_elem? (w.pollfds ++ fresh ∷ [])) (sym h)
          ∙ e) in
        subst (λ t. Owner (added w p) i t) same
          (record {
            channel = p;
            mapped = update_at_self w.channels c.fd (some p);
            index = ap (λ (t : Channel). t.index) at_p ∙ ap pos (sym h);
          })
    | no h ↦
        let l : i < length w.pollfds = omega (
          arith,
          get_elem?_lt (w.pollfds ++ fresh ∷ []) i e,
          length-append w.pollfds (fresh ∷ []),
        ) in
        let o : Owner w i pfd =
          v.listed i pfd (sym (get_elem?-append_lt w.pollfds (fresh ∷ []) i l) ∙ e) in
        let d : descriptor pfd.fd ≢ c.fd = λ g. cc (n.unmapped, o.mapped, ap w.channels g) in
        record {
          channel = o.channel;
          mapped = update_at_ne w.channels c.fd (some p) _ d ∙ o.mapped;
          index = ap (λ (t : Channel). t.index) (kept o.channel i o.index) ∙ o.index;
        }
  ]

  pub added-IsValid : IsValid (added w p)
  added-IsValid = record { known = added-known; listed = added-listed }
