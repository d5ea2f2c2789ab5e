-- ===== src/Other/Stock/Tidy.antt =====
-- other/StockFactory.cpp: the entries of the map, in all runs.
use tcp_net_library.Base.{
  ℕ, suc, ◌<◌, ◌≤◌, ◌≡◌, ◌≢◌, refl, ap, sym, subst, ◌∙◌, Bool, true, false, List, Option, none,
  some, some_inj, ◌==◌, arith, Bool-cases, inl, inr, ==_refl,
}
use tcp_net_library.Http.Text.{str_eq, str_eq_refl, eq_of_str_eq}
use tcp_net_library.Reactor.Poller.{update_at}
use tcp_net_library.Other.Stock.{
  living, dying, destroyed, StockFactory, new_factory, new_stock, copy, get, get_at, leave,
  weak_delete_stock, gets, copies, leaves, deletes, lets_go, Steps, start, later,
}

-- Numbers that are not given yet are those of no stock; the entries refer to stocks that are not
-- destroyed, by their own keys.
pub record IsTidy (f : StockFactory) : Type 0 where
  pub unborn : (s : ℕ) → f.created ≤ s → (f.life s ≡ destroyed) × (f.owners s ≡ 0)
  pub owned : (s : ℕ) → 0 < f.owners s → f.life s ≡ living
  pub lives : (s : ℕ) → f.life s ≡ living → f.owners s ≢ 0
  pub entry :
      (k : List ℕ) (s : ℕ)
      → f.factory ≡ true
      → f.stocks k ≡ some s
      → (f.keys s ≡ k) × (f.life s ≢ destroyed)

new_factory-IsTidy : IsTidy new_factory
new_factory-IsTidy = record {
  unborn = λ s h. (refl, refl);
  owned = λ s h. absurd (omega arith);
  lives = λ s h e. cc h;
  entry = λ k s h e. absurd (cc e);
}

new_stock-IsTidy : (f : StockFactory) (k : List ℕ) → IsTidy f → IsTidy (new_stock f k).0
new_stock-IsTidy f k v = record {
  unborn = λ s h. ground (arith, v.unborn s);
  owned = λ s h. ground (arith, v.owned s);
  lives = λ s h e. ground (arith, v.lives s);
  entry = λ j s h e. elim (Bool-cases (str_eq j k)) [
    | inl q ↦
        let same : f.created ≡ s = some_inj (rw q at e) in
        subst
          (λ t.
            (update_at f.keys f.created k t ≡ j)
            × (update_at f.life f.created living t ≢ destroyed))
          same (rw (==_refl f.created) (sym (eq_of_str_eq j k q), λ z. cc z))
    | inr q ↦
        let (a, b) = v.entry j s h (rw q at e) in
        let old : (s == f.created) ≡ false = elim (Bool-cases (s == f.created)) [
          | inl n ↦ absurd (b (v.unborn s (ground arith)).0)
          | inr n ↦ n
        ] in
        rw old (a, b)
  ];
}

copy-IsTidy : (f : StockFactory) (s : ℕ) → 0 < f.owners s → IsTidy f → IsTidy (copy f s)
copy-IsTidy f s p v = record {
  unborn = λ t h. ground (arith, v.unborn t);
  owned = λ t h. ground (arith, v.owned t);
  lives = λ t h e. ground (arith, v.lives t);
  entry = v.entry;
}

leave-IsTidy : (f : StockFactory) (s n : ℕ) → f.owners s ≡ suc n → IsTidy f → IsTidy (leave f s n)
leave-IsTidy f s n p v = record {
  unborn = λ t h. ground (arith, v.unborn t);
  owned = λ t h. ground (arith, v.owned t);
  lives = λ t h e. ground (arith, v.lives t);
  entry = λ k t h e. ((v.entry k t h e).0, λ z. ground (arith, (v.entry k t h e).1, v.owned s));
}

delete-IsTidy :
    (f : StockFactory) (s : ℕ) → f.life s ≡ dying → IsTidy f → IsTidy (weak_delete_stock f s)
unfolding weak_delete_stock
delete-IsTidy f s p v = elim (Bool-cases f.factory) [
  | inl a ↦ rw a (record {
    unborn = λ t h. ground (arith, v.unborn t);
    owned = λ t h. ground (arith, v.owned t);
    lives = λ t h e. ground (arith, v.lives t);
    entry = λ k t h e. elim (Bool-cases (str_eq k (f.keys s))) [
      | inl q ↦ absurd (cc (rw q at e))
      | inr q ↦
          let (b, c) = v.entry k t a (rw q at e) in
          let other : (t == s) ≡ false = elim (Bool-cases (t == s)) [
            | inl n ↦
                let same : k ≡ f.keys s = sym b ∙ ap f.keys (ground arith) in
                absurd (cc (q, subst (λ j. str_eq k j ≡ true) same (str_eq_refl k)))
            | inr n ↦ n
          ] in
          rw other (b, c)
    ];
  })
  | inr a ↦ rw a (record {
    unborn = λ t h. ground (arith, v.unborn t);
    owned = λ t h. ground (arith, v.owned t);
    lives = λ t h e. ground (arith, v.lives t);
    entry = λ k t h e. absurd (cc (a, h));
  })
]

get-IsTidy : (f : StockFactory) (k : List ℕ) → IsTidy f → IsTidy (get f k).0
unfolding get
get-IsTidy f k v = at (f.stocks k)
  where
    at : (o : Option ℕ) → IsTidy (get_at f k o).0
    at none = new_stock-IsTidy f k v
    at (some s) = elim (Bool-cases (f.owners s == 0)) [
      | inl e ↦ rw e (new_stock-IsTidy f k v)
      | inr e ↦ rw e (copy-IsTidy f s (ground arith) v)
    ]

pub steps-IsTidy : {calm : Bool} (f : StockFactory) → Steps calm f → IsTidy f
steps-IsTidy f start = new_factory-IsTidy
steps-IsTidy f (later {f = e} r (gets k h c)) = get-IsTidy e k (steps-IsTidy e r)
steps-IsTidy f (later {f = e} r (copies s h)) = copy-IsTidy e s h (steps-IsTidy e r)
steps-IsTidy f (later {f = e} r (leaves s n h)) = leave-IsTidy e s n h (steps-IsTidy e r)
steps-IsTidy f (later {f = e} r (deletes s h)) = delete-IsTidy e s h (steps-IsTidy e r)
steps-IsTidy f (later {f = e} r lets_go) =
    let v = steps-IsTidy e r in
    record { unborn = v.unborn; owned = v.owned; lives = v.lives; entry = λ k s h. absurd (cc h) }
