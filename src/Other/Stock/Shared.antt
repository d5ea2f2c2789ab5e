-- ===== src/Other/Stock/Shared.antt =====
-- other/StockFactory.cpp: the stocks of one key, while each deleter runs before the key is asked for
-- again.
use tcp_net_library.Base.{
  ℕ, suc, ◌≡◌, ◌≢◌, refl, ap, sym, subst, ◌∙◌, true, false, List, Option, none, some, some_inj,
  ◌==◌, arith, Bool-cases, inl, inr,
}
use tcp_net_library.Http.Text.{str_eq, str_eq_refl, eq_of_str_eq}
use tcp_net_library.Other.Stock.{
  Life, living, dying, destroyed, StockFactory, new_stock, get, get_at, leave, weak_delete_stock,
  gets, copies, leaves, deletes, lets_go, Steps, start, later,
}
use tcp_net_library.Other.Stock.Tidy.{IsTidy, steps-IsTidy}

-- The map has the stock that a key stands for.
IsShared : StockFactory → Type 0
IsShared f = (s : ℕ) → f.factory ≡ true → f.life s ≢ destroyed → f.stocks (f.keys s) ≡ some s

new_stock-IsShared :
    (f : StockFactory) (k : List ℕ)
    → ((s : ℕ) → f.factory ≡ true → f.life s ≢ destroyed → str_eq (f.keys s) k ≡ false)
    → IsShared f
    → IsShared (new_stock f k).0
unfolding IsShared
new_stock-IsShared f k gone v s h d = elim (Bool-cases (s == f.created)) [
  | inl e ↦ let same : f.created ≡ s = ground arith in rw (e, str_eq_refl k) (ap some same)
  | inr e ↦ let there : f.life s ≢ destroyed = rw e at d in rw (e, gone s h there) (v s h there)
]

life_cases : (l : Life) → l ≢ living → l ≢ destroyed → l ≡ dying
life_cases living a b = absurd (a refl)
life_cases dying a b = refl
life_cases destroyed a b = absurd (b refl)

get-IsShared :
    (f : StockFactory) (k : List ℕ)
    → ((s : ℕ) → f.life s ≡ dying → str_eq (f.keys s) k ≡ false)
    → IsTidy f
    → IsShared f
    → IsShared (get f k).0
unfolding get IsShared
get-IsShared f k calm t v = at (f.stocks k) refl
  where
    held :
        (s : ℕ)
        → f.factory ≡ true
        → f.life s ≢ destroyed
        → str_eq (f.keys s) k ≡ true
        → f.stocks k ≡ some s
    held s h d q = subst (λ j. f.stocks j ≡ some s) (eq_of_str_eq (f.keys s) k q) (v s h d)

    at : (o : Option ℕ) → f.stocks k ≡ o → IsShared (get_at f k o).0
    at none e =
        new_stock-IsShared f k
          (λ s h d. elim (Bool-cases (str_eq (f.keys s) k)) [
            | inl q ↦ absurd (cc (held s h d q, e))
            | inr q ↦ q
          ])
          v
    at (some u) e = elim (Bool-cases (f.owners u == 0)) [
      | inl z ↦ rw z (
          new_stock-IsShared f k
            (λ s h d. elim (Bool-cases (str_eq (f.keys s) k)) [
              | inl q ↦
                  let same : u ≡ s = some_inj (sym e ∙ held s h d q) in
                  let none_left : f.owners s ≡ 0 = ground (arith, ap f.owners same) in
                  calm s (life_cases (f.life s) (λ l. t.lives s l none_left) d)
              | inr q ↦ q
            ])
            v)
      | inr z ↦ rw z v
    ]

delete-IsShared :
    (f : StockFactory) (s : ℕ) → f.life s ≡ dying → IsShared f → IsShared (weak_delete_stock f s)
unfolding weak_delete_stock IsShared
delete-IsShared f s p v = elim (Bool-cases f.factory) [
  | inl a ↦ rw a (λ t h d. elim (Bool-cases (t == s)) [
    | inl e ↦ absurd (d (rw e))
    | inr e ↦ elim (Bool-cases (str_eq (f.keys t) (f.keys s))) [
      | inl q ↦
          let same : t ≡ s = some_inj (
            sym (v t a (rw e at d))
            ∙ ap f.stocks (eq_of_str_eq (f.keys t) (f.keys s) q)
            ∙ v s a (λ z. cc (z, p))) in
          let found : (t == s) ≡ true = ground arith in absurd (cc (e, found))
      | inr q ↦ rw q (v t a (rw e at d))
    ]
  ])
  | inr a ↦ rw a (λ t h. absurd (cc h))
]

leave-IsShared :
    (f : StockFactory) (s n : ℕ)
    → f.owners s ≡ suc n
    → IsTidy f
    → IsShared f
    → IsShared (leave f s n)
unfolding IsShared
leave-IsShared f s n p t v u h d = v u h (λ z. ground (arith, t.owned u))

steps-IsShared : (f : StockFactory) → Steps true f → IsShared f
unfolding IsShared
steps-IsShared f start = λ s h d. absurd (d refl)
steps-IsShared f (later {f = e} r (gets k h c)) =
    get-IsShared e k (c refl) (steps-IsTidy e r) (steps-IsShared e r)
steps-IsShared f (later {f = e} r (copies s h)) = steps-IsShared e r
steps-IsShared f (later {f = e} r (leaves s n h)) =
    leave-IsShared e s n h (steps-IsTidy e r) (steps-IsShared e r)
steps-IsShared f (later {f = e} r (deletes s h)) = delete-IsShared e s h (steps-IsShared e r)
steps-IsShared f (later {f = e} r lets_go) = λ s h d. absurd (cc h)

-- Where nobody asks for a key while a stock with that key waits for its deleter, `get` shares: while
-- the factory is there, no two living stocks have the same key, and the map leads from the key to
-- the stock.
pub steps_shared :
    (f : StockFactory) (s t : ℕ)
    → Steps true f
    → f.factory ≡ true
    → f.life s ≡ living
    → f.life t ≡ living
    → f.keys s ≡ f.keys t
    → (s ≡ t) × (f.stocks (f.keys s) ≡ some s)
unfolding IsShared
steps_shared f s t r h a b e =
    let v = steps-IsShared f r in
    let x = v s h (λ z. cc (z, a)) in
    let y = v t h (λ z. cc (z, b)) in (some_inj (sym x ∙ ap f.stocks e ∙ y), x)
