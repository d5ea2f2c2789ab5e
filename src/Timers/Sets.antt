-- ===== src/Timers/Sets.antt =====
-- timerQueue.cpp: insertion into a sorted set of pairs, and erasure.
use tcp_net_library.Base.{
  ◌+◌, ◌≡◌, refl, true, false, List, [], ◌∷◌, arith, length, Bool-cases, inl, inr, ==_refl,
}
use tcp_net_library.Timers.{Pair, pair_lt, pair_eq, set_insert, set_erase, set_has}

pair_eq_refl : (x : Pair) → pair_eq x x ≡ true
pair_eq_refl x = rw (==_refl x.0, ==_refl x.1)

lt→not_eq : (x y : Pair) → pair_lt y x ≡ true → pair_eq x y ≡ false
lt→not_eq x y h = ground arith

-- Two pairs that no order separates agree in both parts.
apart→same : (x y : Pair) → pair_lt x y ≡ false → pair_lt y x ≡ false → (x.0 ≡ y.0) × (x.1 ≡ y.1)
apart→same x y h k = ground arith

-- The element is new, it is there, erasing it leads back, and the size grows by one.
pub record Added (x : Pair) (s : List Pair) : Type 0 where
  pub new : (set_insert x s).1 ≡ true
  pub there : set_has x (set_insert x s).0 ≡ true
  pub back : set_erase x (set_insert x s).0 ≡ (s, 1)
  pub longer : length (set_insert x s).0 ≡ length s + 1

-- No element is the pair.
abbrev pub Differs : Pair → List Pair → Type 0
Differs x [] = Unit {0}
Differs x (y ∷ ys) = (pair_eq x y ≡ false) × Differs x ys

same→eq : (x y : Pair) → (x.0 ≡ y.0) × (x.1 ≡ y.1) → pair_eq x y ≡ true
same→eq x y (p, q) = rw (p, q, ==_refl y.0, ==_refl y.1)

pub set_insert-Added : (x : Pair) (s : List Pair) → Differs x s → Added x s
unfolding set_insert set_erase set_has
set_insert-Added x [] d = record {
  new = refl;
  there = rw (pair_eq_refl x);
  back = rw (pair_eq_refl x);
  longer = refl;
}
set_insert-Added x (y ∷ ys) d = elim (Bool-cases (pair_lt x y)) [
  | inl h ↦ record {
    new = rw h;
    there = rw (h, pair_eq_refl x);
    back = rw (h, pair_eq_refl x);
    longer = rw h (omega arith);
  }
  | inr h ↦ elim (Bool-cases (pair_lt y x)) [
    | inl k ↦
        let r = set_insert-Added x ys d.1 in
        record {
          new = rw (h, k) r.new;
          there = rw (h, k, d.0) r.there;
          back = rw (h, k, d.0, r.back);
          longer = rw (h, k) (omega (arith, r.longer));
        }
    | inr k ↦ absurd (cc (d.0, same→eq x y (apart→same x y h k)))
  ]
]
