-- ===== src/Reactor/Poller/Active.antt =====
-- poller.cpp: `fillActiveChannels`.
use tcp_net_library.Base.{
  ℕ, zero, suc, ◌+◌, ◌-◌, ◌<◌, ◌≡◌, ◌≢◌, refl, ap, sym, subst, ◌∙◌, true, List, [], ◌∷◌, ◌++◌,
  append-nil, append_assoc, arith, Option, some, get_elem?, ltb, ok, pos,
}
use tcp_net_library.Reactor.Channel.{Channel, set_event}
use tcp_net_library.Reactor.Channel.Same.{SameWatch, set_event-SameWatch}
use tcp_net_library.Reactor.Poller.{
  PollFd, Poller, update_at, descriptor, find_channel, positive, Filled, fill_active, store_revents,
}
use tcp_net_library.Reactor.Poller.Invariant.{Owner, update_at_self, update_at_ne}

-- What `poll` stores in the entries, and the number that it answers: an entry with a negative
-- descriptor is passed over.
pub data Reports : List PollFd → List ℕ → ℕ → Type 0 where
  done : Reports [] [] 0
  quiet :
      {pfd : PollFd} {pfds : List PollFd} {rs : List ℕ} {n : ℕ}
      → Reports pfds rs n
      → Reports (pfd ∷ pfds) (0 ∷ rs) n
  ready :
      {pfd : PollFd} {pfds : List PollFd} {r fd : ℕ} {rs : List ℕ} {n : ℕ}
      → pfd.fd ≡ pos fd
      → positive r ≡ true
      → Reports pfds rs n
      → Reports (pfd ∷ pfds) (r ∷ rs) (suc n)

-- The channels of the entries with events, in order, and each has its events in `chans`.
pub data Fires (channels : ℕ → Option ℕ) (chans : ℕ → Channel)
    : List PollFd → List ℕ → List ℕ → Type 0 where
  done : Fires channels chans [] [] []
  quiet :
      {pfd : PollFd} {pfds : List PollFd} {rs ps : List ℕ}
      → Fires channels chans pfds rs ps
      → Fires channels chans (pfd ∷ pfds) (0 ∷ rs) ps
  ready :
      {pfd : PollFd} {pfds : List PollFd} {r p : ℕ} {rs ps : List ℕ}
      → channels (descriptor pfd.fd) ≡ some p
      → (chans p).revent ≡ r
      → Fires channels chans pfds rs ps
      → Fires channels chans (pfd ∷ pfds) (r ∷ rs) (p ∷ ps)

pos_inj : {a b : ℕ} → pos a ≡ pos b → a ≡ b
pos_inj h = cc

pub none-Fires :
    (channels : ℕ → Option ℕ) (chans : ℕ → Channel) (pfds : List PollFd) (rs : List ℕ) (n : ℕ)
    → n ≡ 0
    → Reports pfds rs n
    → Fires channels chans pfds rs []
none-Fires channels chans pfds rs n h Reports.done = Fires.done
none-Fires channels chans pfds rs n h (Reports.quiet r) =
    Fires.quiet (none-Fires channels chans _ _ n h r)
none-Fires channels chans pfds rs n h (Reports.ready e q r) = absurd (omega arith)

-- The filled channels, from the entry `i` on.
pub record Found (w : Poller) (i : ℕ) (pfds : List PollFd) (rs : List ℕ) (acc f : Filled)
    : Type 0 where
  pub ps : List ℕ
  pub active : f.active ≡ acc.active ++ ps
  pub same : SameWatch w.chans f.chans
  pub kept : (q k : ℕ) → (w.chans q).index ≡ pos k → k < i → f.chans q ≡ acc.chans q
  pub fires : Fires w.channels f.chans pfds rs ps

later :
    (w : Poller) (i : ℕ) (pfd : PollFd) (pfds : List PollFd)
    → ((j : ℕ) (x : PollFd) → get_elem? (pfd ∷ pfds) j ≡ some x → Owner w (i + j) x)
    → (j : ℕ) (x : PollFd) → get_elem? pfds j ≡ some x
    → Owner w (i + 1 + j) x
later w i pfd pfds own j x h =
    let e : i + suc j ≡ i + 1 + j = omega arith in subst (λ t. Owner w t x) e (own (suc j) x h)

pub ltb-suc : (n : ℕ) → ltb 0 (suc n) ≡ true
ltb-suc n = ground arith

positive_lem : (r : ℕ) → positive r ≡ true → r ≢ 0
positive_lem r h = ground arith

-- The step for an entry with events.
abbrev with_event : Filled → ℕ → ℕ → Filled
with_event acc p r = record {
  chans = update_at acc.chans p (set_event (acc.chans p) r);
  active = acc.active ++ p ∷ [];
}

pub fill_active_ok :
    (w : Poller) (i n : ℕ) (pfds : List PollFd) (rs : List ℕ) (acc : Filled)
    → Reports pfds rs n
    → ((j : ℕ) (pfd : PollFd) → get_elem? pfds j ≡ some pfd → Owner w (i + j) pfd)
    → SameWatch w.chans acc.chans
    → (f : Filled) × (fill_active w.channels (store_revents pfds rs) n acc ≡ ok f)
      × Found w i pfds rs acc f
unfolding fill_active
fill_active_ok w i n [] [] acc Reports.done own s = (
  acc,
  refl,
  record {
    ps = [];
    active = sym (append-nil acc.active);
    same = s;
    kept = λ q k e l. refl;
    fires = Fires.done;
  },
)
fill_active_ok w i n [] (r ∷ rs) acc h own s = elim h [ ]
fill_active_ok w i n (pfd ∷ pfds) [] acc h own s = elim h [ ]
fill_active_ok w i zero (pfd ∷ pfds) (r ∷ rs) acc (Reports.quiet h) own s = (
  acc,
  refl,
  record {
    ps = [];
    active = sym (append-nil acc.active);
    same = s;
    kept = λ q k e l. refl;
    fires = Fires.quiet (none-Fires _ _ _ _ 0 refl h);
  },
)
fill_active_ok w i (suc n) (pfd ∷ pfds) (r ∷ rs) acc (Reports.quiet h) own s =
    let (f, e, g) = fill_active_ok w (i + 1) (suc n) pfds rs acc h (later w i pfd pfds own) s in
    (
      f,
      rw (ltb-suc n) e,
      record {
        ps = g.ps;
        active = g.active;
        same = g.same;
        kept = λ q k e l. g.kept q k e (omega arith);
        fires = Fires.quiet g.fires;
      },
    )
fill_active_ok w i (suc n) (pfd ∷ pfds) (r ∷ rs) acc (Reports.ready {fd = fd} at pr h) own s =
    let o = own 0 pfd refl in
    let here : (w.chans o.channel).index ≡ pos i = o.index ∙ ap pos (omega arith) in
    let found : find_channel w.channels pfd.fd ≡ some o.channel =
      ap (find_channel w.channels) at ∙ ap (λ t. w.channels (descriptor t)) (sym at) ∙ o.mapped in
    let next : suc n - 1 ≡ n = omega arith in
    let (f, e, g) =
      fill_active_ok w (i + 1) n pfds rs (with_event acc o.channel r) h (later w i pfd pfds own)
        (set_event-SameWatch acc.chans w.chans o.channel r s) in
    let apart : (q k : ℕ) → (w.chans q).index ≡ pos k → k < i → q ≢ o.channel =
      λ q k e l d. absurd (omega (arith, pos_inj (sym e ∙ ap (λ t. (w.chans t).index) d ∙ here))) in
    (
      f,
      rw (ltb-suc n, pr, found, next) e,
      record {
        ps = o.channel ∷ g.ps;
        active = g.active ∙ append_assoc acc.active (o.channel ∷ []) g.ps;
        same = g.same;
        kept = λ q k e l.
            g.kept q k e (omega arith) ∙ update_at_ne acc.chans o.channel _ q (apart q k e l);
        fires =
            Fires.ready o.mapped
              (ap (λ (c : Channel). c.revent)
                (g.kept o.channel i here (omega arith)
                  ∙ update_at_self acc.chans o.channel (set_event (acc.chans o.channel) r)))
              g.fires;
      },
    )
