-- ===== src/Tests/Stocks.antt =====
-- The theorems of the cache of stocks at one key.
use tcp_net_library.Base.{ℕ, ◌==◌, if◌then◌else◌, Bool, ◌≡◌, refl, true, false, [], ◌∷◌, some}
use tcp_net_library.Other.Stock.{
  dying, living, destroyed, StockFactory, new_factory, get, leave, leaves, weak_delete_stock, gets,
  Steps, start, later,
}
use tcp_net_library.Other.Stock.Shared.{steps_shared}
use tcp_net_library.Other.Stock.Twice.{MadeTwice, get_twice}

-- The only owner of the stock has gone.
abbrev alone : StockFactory
alone = leave (get new_factory (78 ∷ [])).0 0 0

alone_steps : Steps false alone
unfolding get
alone_steps = later (later start (gets (78 ∷ []) refl (λ c. cc c))) (leaves 0 0 refl)

get_twice_example :
    MadeTwice
      (78 ∷ [])
      0
      (get alone (78 ∷ []))
      (get (weak_delete_stock (get alone (78 ∷ [])).0 0) (78 ∷ []))
unfolding get
get_twice_example = get_twice alone (78 ∷ []) 0 alone_steps refl refl refl

-- The key is asked for twice.
abbrev cached : StockFactory
cached = (get (get new_factory (78 ∷ [])).0 (78 ∷ [])).0

not_dying : (b : Bool) → (if b then living else destroyed) ≡ dying → ⊥
not_dying true h = cc h
not_dying false h = cc h

cached_steps : Steps true cached
unfolding get
cached_steps =
    later (later start (gets (78 ∷ []) refl (λ c s d. absurd (cc d))))
      (gets (78 ∷ []) refl (λ c s d. absurd (not_dying (s == 0) d)))

steps_shared_example : (◌≡◌ {A = ℕ} 0 0) × (cached.stocks (cached.keys 0) ≡ some 0)
unfolding get
steps_shared_example = steps_shared cached 0 0 cached_steps refl refl refl refl
