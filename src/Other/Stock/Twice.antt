-- ===== src/Other/Stock/Twice.antt =====
-- other/StockFactory.cpp: `get` between the end of a stock and its deleter.
use tcp_net_library.Base.{
  ℕ, ◌+◌, ◌<◌, ◌≡◌, ◌≢◌, ap, sym, subst, ◌∙◌, true, false, List, none, some, ◌==◌, if◌then◌else◌,
  arith, ==_refl, Bool-cases, inl, inr,
}
use tcp_net_library.Http.Text.{str_eq_refl}
use tcp_net_library.Reactor.Poller.{update_at}
use tcp_net_library.Other.Stock.{
  living, dying, destroyed, StockFactory, get, get_at, copy, remove_stock, weak_delete_stock,
  new_stock, Steps,
}
use tcp_net_library.Other.Stock.Tidy.{IsTidy, steps-IsTidy}

get-none : (f : StockFactory) (k : List ℕ) → f.stocks k ≡ none → get f k ≡ new_stock f k
unfolding get
get-none f k h = ap (get_at f k) h

get-dead :
    (f : StockFactory) (k : List ℕ) (s : ℕ)
    → f.stocks k ≡ some s
    → f.owners s ≡ 0
    → get f k ≡ new_stock f k
unfolding get
get-dead f k s h z = ap (get_at f k) h ∙ ap (λ n. if n == 0 then new_stock f k else (copy f s, s)) z

get-new_stock : (f : StockFactory) (k : List ℕ) → (get (new_stock f k).0 k).1 ≡ f.created
unfolding get
get-new_stock f k = rw (str_eq_refl k, ==_refl f.created)

no_owner : (n : ℕ) → (0 < n → ⊥) → n ≡ 0
no_owner n h = ground arith

-- A stock that waits for its deleter has no owner, its own key, and a number that is given.
waits :
    (f : StockFactory) (k : List ℕ) (s : ℕ)
    → IsTidy f
    → f.factory ≡ true
    → f.stocks k ≡ some s
    → f.life s ≡ dying
    → (f.owners s ≡ 0) × (f.keys s ≡ k) × ((s == f.created) ≡ false)
waits f k s v a h d = (
  no_owner (f.owners s) (λ p. cc (v.owned s p, d)),
  (v.entry k s a h).0,
  elim (Bool-cases (s == f.created)) [
    | inl e ↦ absurd (cc ((v.unborn s (ground arith)).0, d))
    | inr e ↦ e
  ],
)

-- `g` is the stock that `get` gives while `s` waits for its deleter, and `h` the one that it gives
-- after the deleter has run.
pub record MadeTwice (k : List ℕ) (s : ℕ) (g h : StockFactory × ℕ) : Type 0 where
  pub is_new : g.1 ≢ s
  pub shared : (get g.0 k).1 ≡ g.1
  pub lost : (weak_delete_stock g.0 s).stocks k ≡ none
  pub is_other : h.1 ≢ g.1
  pub both_live : (h.0.life g.1 ≡ living) × (h.0.life h.1 ≡ living)
  pub same_key : (h.0.keys g.1 ≡ k) × (h.0.keys h.1 ≡ k)

-- The factory after the deleter of `s`, behind a new stock.
abbrev late : StockFactory → List ℕ → ℕ → StockFactory
late f k s =
    let g = (new_stock f k).0 in record (remove_stock g s) { life = update_at g.life s destroyed }

late_ok :
    (f : StockFactory) (k : List ℕ) (s : ℕ)
    → f.factory ≡ true
    → weak_delete_stock (new_stock f k).0 s ≡ late f k s
unfolding weak_delete_stock
late_ok f k s a =
    let g = (new_stock f k).0 in
    ap (λ b. record (if b then remove_stock g s else g) { life = update_at g.life s destroyed }) a

late-none :
    (f : StockFactory) (k : List ℕ) (s : ℕ)
    → f.keys s ≡ k
    → (s == f.created) ≡ false
    → (late f k s).stocks k ≡ none
late-none f k s e n = rw (n, e, str_eq_refl k)

made_twice :
    (f : StockFactory) (k : List ℕ) (s : ℕ)
    → f.factory ≡ true
    → f.keys s ≡ k
    → (s == f.created) ≡ false
    → MadeTwice k s (new_stock f k) (new_stock (late f k s) k)
made_twice f k s a e n =
    let older : (f.created == f.created + 1) ≡ false = ground arith in
    let not_s : (f.created == s) ≡ false = ground arith in
    record {
      is_new = λ q. ground arith;
      shared = get-new_stock f k;
      lost = ap (λ t. t.stocks k) (late_ok f k s a) ∙ late-none f k s e n;
      is_other = λ q. omega arith;
      both_live = (rw (older, not_s, ==_refl f.created), rw (==_refl (f.created + 1)));
      same_key = (rw (older, ==_refl f.created), rw (==_refl (f.created + 1)));
    }

-- In every run, where the stock `s` of a key has lost its last owner and its deleter has not run: the
-- key asked for now gets a new stock, which further calls share; the deleter of `s` then takes the
-- entry of that one away, and the next call makes another stock, so two with the same key live.
pub get_twice :
    (f : StockFactory) (k : List ℕ) (s : ℕ)
    → Steps false f
    → f.factory ≡ true
    → f.stocks k ≡ some s
    → f.life s ≡ dying
    → MadeTwice k s (get f k) (get (weak_delete_stock (get f k).0 s) k)
get_twice f k s r a h d =
    let (z, e, n) = waits f k s (steps-IsTidy f r) a h d in
    let first = get-dead f k s h z in
    let second : get (weak_delete_stock (new_stock f k).0 s) k ≡ new_stock (late f k s) k =
      ap (λ t. get t k) (late_ok f k s a) ∙ get-none (late f k s) k (late-none f k s e n) in
    subst (λ t. MadeTwice k s t (get (weak_delete_stock t.0 s) k)) (sym first)
      (subst (MadeTwice k s (new_stock f k)) (sym second) (made_twice f k s a e n))
