-- ===== src/Timers/Algebra.antt =====
-- timerQueue.cpp: membership in the sorted sets, after an insertion, an erasure and a split.
use tcp_net_library.Base.{
  ℕ, ◌<◌, ◌≡◌, ◌≢◌, refl, sym, length, ◌+◌, Bool, true, false, not, ◌&&◌, ◌||◌, List, [], ◌∷◌,
  arith, leb, ◌==◌, Bool-cases, inl, inr,
}
use tcp_net_library.Timers.{Pair, pair_lt, pair_eq, set_insert, set_erase, set_has, uintptr_max}
use tcp_net_library.Timers.Sets.{Differs}
use tcp_net_library.Timers.Due.{Above, IsSorted, AllSmall, NotAt, AllDistinct, due, later}

eq_trans : (x y z : Pair) → pair_eq x y ≡ true → pair_eq z x ≡ pair_eq z y
eq_trans x y z h = ground arith

pub set_has-insert :
    (y x : Pair) (s : List Pair) → set_has y (set_insert x s).0 ≡ (pair_eq y x || set_has y s)
unfolding set_has set_insert
set_has-insert y x [] = ground arith
set_has-insert y x (z ∷ zs) = ground (arith, set_has-insert y x zs)

Above-insert :
    (y x : Pair) (s : List Pair) → pair_lt y x ≡ true → Above y s → Above y (set_insert x s).0
unfolding set_insert
Above-insert y x [] h a = ground arith
Above-insert y x (z ∷ zs) h a = ground (arith, Above-insert y x zs h a.1)

lt_trans : (x y z : Pair) → pair_lt x y ≡ true → pair_lt y z ≡ true → pair_lt x z ≡ true
lt_trans x y z h k = ground arith

Above-below : (x y : Pair) (s : List Pair) → pair_lt x y ≡ true → Above y s → Above x s
Above-below x y [] h a = tt
Above-below x y (z ∷ zs) h a = (lt_trans x y z h a.0, Above-below x y zs h a.1)

pub IsSorted-insert : (x : Pair) (s : List Pair) → IsSorted s → IsSorted (set_insert x s).0
unfolding set_insert
IsSorted-insert x [] h = (tt, tt)
IsSorted-insert x (y ∷ ys) h = elim (Bool-cases (pair_lt x y)) [
  | inl e ↦ rw e ((e, Above-below x y ys e h.0), h)
  | inr e ↦ elim (Bool-cases (pair_lt y x)) [
    | inl k ↦ rw (e, k) (Above-insert y x ys k h.0, IsSorted-insert x ys h.1)
    | inr k ↦ rw (e, k) h
  ]
]

Above-erase : (y x : Pair) (s : List Pair) → Above y s → Above y (set_erase x s).0
unfolding set_erase
Above-erase y x [] a = tt
Above-erase y x (z ∷ zs) a = ground (arith, Above-erase y x zs a.1)

pub IsSorted-erase : (x : Pair) (s : List Pair) → IsSorted s → IsSorted (set_erase x s).0
unfolding set_erase
IsSorted-erase x [] h = tt
IsSorted-erase x (y ∷ ys) h = elim (Bool-cases (pair_eq x y)) [
  | inl e ↦ rw e h.1
  | inr e ↦ rw e (Above-erase y x ys h.0, IsSorted-erase x ys h.1)
]

-- An element below all others is not among them.
has-Above : (x : Pair) (s : List Pair) → Above x s → set_has x s ≡ false
unfolding set_has
has-Above x [] a = refl
has-Above x (y ∷ ys) a = ground (arith, has-Above x ys a.1)

same_has : (x y : Pair) (s : List Pair) → pair_eq x y ≡ true → set_has x s ≡ set_has y s
unfolding set_has
same_has x y [] h = refl
same_has x y (z ∷ zs) h = ground (arith, same_has x y zs h)

pub set_has-erase :
    (y x : Pair) (s : List Pair)
    → IsSorted s
    → set_has y (set_erase x s).0 ≡ (set_has y s && not (pair_eq y x))
unfolding set_has set_erase
set_has-erase y x [] h = refl
set_has-erase y x (z ∷ zs) h =
    ground (arith, set_has-erase y x zs h.1, has-Above z zs h.0, same_has y z zs)

pub has-Differs : (x : Pair) (s : List Pair) → set_has x s ≡ false → Differs x s
unfolding set_has
has-Differs x [] h = tt
has-Differs x (y ∷ ys) h = ground (arith, has-Differs x ys)

pub set_has-due :
    (t p now : ℕ) (xs : List Pair) → set_has (t, p) (due now xs) ≡ (set_has (t, p) xs && leb t now)
unfolding set_has
set_has-due t p now [] = refl
set_has-due t p now (x ∷ xs) = ground (arith, set_has-due t p now xs)

pub set_has-later :
    (t p now : ℕ) (xs : List Pair)
    → set_has (t, p) (later now xs) ≡ (set_has (t, p) xs && not (leb t now))
unfolding set_has
set_has-later t p now [] = refl
set_has-later t p now (x ∷ xs) = ground (arith, set_has-later t p now xs)

pub has-NotAt : (p : ℕ) (xs : List Pair) → ((t : ℕ) → set_has (t, p) xs ≡ false) → NotAt p xs
unfolding set_has
has-NotAt p [] h = tt
has-NotAt p (x ∷ xs) h = (λ e. ground (arith, h x.0), has-NotAt p xs (λ t. ground (arith, h t)))

-- Some element has the address.
abbrev pub at_address : ℕ → List Pair → Bool
at_address p [] = false
at_address p (x ∷ xs) = x.1 == p || at_address p xs

pub has-at_address : (t p : ℕ) (xs : List Pair) → set_has (t, p) xs ≡ true → at_address p xs ≡ true
unfolding set_has
has-at_address t p [] h = absurd (cc h)
has-at_address t p (x ∷ xs) h = ground (arith, has-at_address t p xs)

pub at_address-has :
    (p : ℕ) (xs : List Pair) → at_address p xs ≡ true → (t : ℕ) × (set_has (t, p) xs ≡ true)
unfolding set_has
at_address-has p [] h = absurd (cc h)
at_address-has p (x ∷ xs) h = elim (Bool-cases (x.1 == p)) [
  | inl e ↦ (x.0, ground arith)
  | inr e ↦ let (t, k) = at_address-has p xs (rw e at h) in (t, ground arith)
]

pub NotAt-at_address : (p : ℕ) (xs : List Pair) → NotAt p xs → at_address p xs ≡ false
NotAt-at_address p [] n = refl
NotAt-at_address p (x ∷ xs) n = ground (arith, NotAt-at_address p xs n.1)

pub AllSmall-insert :
    (x : Pair) (s : List Pair) → x.1 < uintptr_max → AllSmall s → AllSmall (set_insert x s).0
unfolding set_insert
AllSmall-insert x [] h a = (h, tt)
AllSmall-insert x (y ∷ ys) h a = ground (arith, AllSmall-insert x ys h a.1)

NotAt-insert : (p : ℕ) (x : Pair) (s : List Pair) → x.1 ≢ p → NotAt p s → NotAt p (set_insert x s).0
unfolding set_insert
NotAt-insert p x [] h a = (h, tt)
NotAt-insert p x (y ∷ ys) h a = ground (arith, NotAt-insert p x ys h a.1)

pub AllDistinct-insert :
    (x : Pair) (s : List Pair) → NotAt x.1 s → AllDistinct s → AllDistinct (set_insert x s).0
unfolding set_insert
AllDistinct-insert x [] n d = (tt, tt)
AllDistinct-insert x (y ∷ ys) n d =
    ground (arith, AllDistinct-insert x ys n.1 d.1, NotAt-insert y.1 x ys (λ e. n.0 (sym e)) d.0)

pub length-erase :
    (x : Pair) (s : List Pair) → (set_erase x s).1 ≡ 1 → length (set_erase x s).0 + 1 ≡ length s
unfolding set_erase
length-erase x [] h = absurd (omega arith)
length-erase x (y ∷ ys) h = elim (Bool-cases (pair_eq x y)) [
  | inl e ↦ rw e (omega arith)
  | inr e ↦ rw e (omega (arith, length-erase x ys (rw e at h)))
]
