-- ===== src/Reactor/Epoller/Watched.antt =====
-- epoller.cpp: the map, the channels' indices and the kernel's set, and how an update keeps them
-- together.
use native.Mathlib.Decide.{ℕ_discrete}
use tcp_net_library.Base.{ℕ, ◌≡◌, ◌≢◌, sym, ap, subst, ◌∙◌, Option, none, some, ℤ}
use tcp_net_library.Reactor.Channel.{Channel}
use tcp_net_library.Reactor.Epoller.{Epoller, EpollCalls, added, deleted}

-- The index of a known channel `p` says if the kernel watches its descriptor.
pub data Agrees (p : ℕ) (held : Option (ℕ × ℕ)) (i : ℤ) : Type 0 where
  on : (e : ℕ) → i ≡ added → held ≡ some (e, p) → Agrees p held i
  off : i ≡ deleted → held ≡ none → Agrees p held i

-- What the kernel watches of a descriptor, by what it is mapped to.
pub data Slot (chans : ℕ → Channel) (fd : ℕ) (held : Option (ℕ × ℕ)) : Option ℕ → Type 0 where
  free : held ≡ none → Slot chans fd held none
  known : {p : ℕ} → (chans p).fd ≡ fd → Agrees p held (chans p).index → Slot chans fd held (some p)

module _ {k : EpollCalls} where
  abbrev pub IsValid : Epoller k → Type 0
  IsValid w = (fd : ℕ) → Slot w.chans fd (k.watched w.kernel fd) (w.channels fd)

  -- Only the slot of `fd` differs, and the index of the channel `p`.
  pub record Changed (w w' : Epoller k) (p : ℕ) : Type 0 where
    pub channels : (g : ℕ) → g ≢ (w.chans p).fd → w'.channels g ≡ w.channels g
    pub chans : (q : ℕ) → q ≢ p → w'.chans q ≡ w.chans q
    pub watched : (g : ℕ) → g ≢ (w.chans p).fd → k.watched w'.kernel g ≡ k.watched w.kernel g

  Slot-kept :
      (w : Epoller k) (p : ℕ) (chans' : ℕ → Channel) (g : ℕ) (held : Option (ℕ × ℕ))
      (entry : Option ℕ)
      → ((q : ℕ) → q ≢ p → chans' q ≡ w.chans q)
      → g ≢ (w.chans p).fd
      → Slot w.chans g held entry
      → Slot chans' g held entry
  Slot-kept w p chans' g held none keeps away (free h) = free h
  Slot-kept w p chans' g held (some q) keeps away (known own a) =
      let e : chans' q ≡ w.chans q = keeps q (λ s. away (sym own ∙ ap (λ t. (w.chans t).fd) s)) in
      known (ap (λ (c : Channel). c.fd) e ∙ own)
        (subst (Agrees q held) (ap (λ (c : Channel). c.index) (sym e)) a)

  pub Changed-IsValid :
      (w w' : Epoller k) (p : ℕ)
      → IsValid w
      → Changed w w' p
      → Slot w'.chans
          (w.chans p).fd
          (k.watched w'.kernel (w.chans p).fd)
          (w'.channels (w.chans p).fd)
      → IsValid w'
  Changed-IsValid w w' p v c here g = elim (ℕ_discrete g (w.chans p).fd) [
    | yes h ↦ subst (λ t. Slot w'.chans t (k.watched w'.kernel t) (w'.channels t)) (sym h) here
    | no h ↦ rw (c.channels g h, c.watched g h) (Slot-kept w p w'.chans g _ _ c.chans h (v g))
  ]
