-- ===== src/Other/Observer.antt =====
-- other/Observable.h and other/Observable.cpp: a list of weak pointers to observers, as numbers. The
-- state of the program is a parameter, with whether an observer is gone and what its `update` does.
use tcp_net_library.Base.{
  ℕ, ◌≡◌, refl, Bool, List, [], ◌∷◌, ◌++◌, Bool-cases, inl, inr, if◌then◌else◌,
}

module _ {State : Type 0} (expired : ℕ → State → Bool) (update : ℕ → State → State) where
  abbrev pub register : List ℕ → ℕ → List ℕ
  register obs ob = obs ++ ob ∷ []

  -- Each observer is locked when its turn comes; one that is gone is erased.
  unfoldable pub notify_all : List ℕ → State → List ℕ × State
  notify_all [] s = ([], s)
  notify_all (ob ∷ obs) s =
      let rest = notify_all obs (if expired ob s then s else update ob s) in
      if expired ob s then rest else (ob ∷ rest.0, rest.1)

  -- The observers that are there, and an update of each.
  abbrev present : List ℕ → State → List ℕ
  present [] s = []
  present (ob ∷ obs) s = if expired ob s then present obs s else ob ∷ present obs s

  abbrev update_each : List ℕ → State → State
  update_each [] s = s
  update_each (ob ∷ obs) s = update_each obs (update ob s)

  present_same :
      (obs : List ℕ) (s t : State)
      → ((ob : ℕ) → expired ob t ≡ expired ob s)
      → present obs t ≡ present obs s
  present_same [] s t h = refl
  present_same (ob ∷ obs) s t h = rw (h ob, present_same obs s t h)

  -- Where an update makes no observer go, `notifyAll` updates those that are there, each once and in
  -- the order in which they were registered, and keeps exactly them.
  notify_all_ok :
      (obs : List ℕ) (s : State)
      → ((o ob : ℕ) (t : State) → expired ob (update o t) ≡ expired ob t)
      → notify_all obs s ≡ (present obs s, update_each (present obs s) s)
  unfolding notify_all
  notify_all_ok [] s h = refl
  notify_all_ok (ob ∷ obs) s h = elim (Bool-cases (expired ob s)) [
    | inl e ↦ rw (e, notify_all_ok obs s h)
    | inr e ↦
        rw (e, notify_all_ok obs (update ob s) h, present_same obs s (update ob s) (λ o. h ob o s))
  ]
