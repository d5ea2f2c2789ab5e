-- ===== src/Timers/Due.antt =====
-- timerQueue.cpp: `getExpired` on a sorted queue.
use tcp_net_library.Base.{
  ℕ, ◌<◌, ◌≡◌, ◌≢◌, refl, ap, true, List, [], ◌∷◌, ◌++◌, arith, leb, if◌then◌else◌, Bool-cases, inl,
  inr,
}
use tcp_net_library.Timers.{
  Pair, pair_lt, pair_eq, set_erase, set_has, lower_part, after_now, uintptr_max,
}

-- Strictly ascending.
abbrev pub Above : Pair → List Pair → Type 0
Above x [] = Unit {0}
Above x (y ∷ ys) = (pair_lt x y ≡ true) × Above x ys

abbrev pub IsSorted : List Pair → Type 0
IsSorted [] = Unit {0}
IsSorted (x ∷ xs) = Above x xs × IsSorted xs

-- Every address is below the largest one.
abbrev pub AllSmall : List Pair → Type 0
AllSmall [] = Unit {0}
AllSmall (x ∷ xs) = (x.1 < uintptr_max) × AllSmall xs

-- The timers that are due, and those that are not, in order.
abbrev pub due : ℕ → List Pair → List Pair
due now [] = []
due now (x ∷ xs) = if leb x.0 now then x ∷ due now xs else due now xs

abbrev pub later : ℕ → List Pair → List Pair
later now [] = []
later now (x ∷ xs) = if leb x.0 now then later now xs else x ∷ later now xs

before_sentry :
    (now : ℕ) (x : Pair) → x.1 < uintptr_max → pair_lt x (now, uintptr_max) ≡ leb x.0 now
before_sentry now x h = ground arith

none_due : (now : ℕ) (x : Pair) (xs : List Pair) → now < x.0 → Above x xs → due now xs ≡ []
none_due now x [] h a = refl
none_due now x (y ∷ ys) h a = ground (arith, none_due now x ys h a.1)

all_later : (now : ℕ) (x : Pair) (xs : List Pair) → now < x.0 → Above x xs → later now xs ≡ xs
all_later now x [] h a = refl
all_later now x (y ∷ ys) h a = ground (arith, all_later now x ys h a.1)

pub lower_part-due :
    (now : ℕ) (xs : List Pair)
    → IsSorted xs
    → AllSmall xs
    → lower_part (now, uintptr_max) xs ≡ (due now xs, later now xs)
unfolding lower_part
lower_part-due now [] s a = refl
lower_part-due now (x ∷ xs) s a = elim (Bool-cases (leb x.0 now)) [
  | inl e ↦ rw (before_sentry now x a.0, e, lower_part-due now xs s.1 a.1)
  | inr e ↦ rw (
    before_sentry now x a.0,
    e,
    none_due now x xs (ground arith) s.0,
    all_later now x xs (ground arith) s.0,
  )
]

pub after_now-later : (now : ℕ) (xs : List Pair) → IsSorted xs → after_now now (later now xs) ≡ true
after_now-later now [] s = refl
after_now-later now (x ∷ xs) s = elim (Bool-cases (leb x.0 now)) [
  | inl e ↦ rw e (after_now-later now xs s.1)
  | inr e ↦ rw e (ground arith)
]

-- No address stands twice.
abbrev pub NotAt : ℕ → List Pair → Type 0
NotAt p [] = Unit {0}
NotAt p (x ∷ xs) = (x.1 ≢ p) × NotAt p xs

abbrev pub AllDistinct : List Pair → Type 0
AllDistinct [] = Unit {0}
AllDistinct (x ∷ xs) = NotAt x.1 xs × AllDistinct xs

pub set_erase_found : (x : Pair) (s : List Pair) → set_has x s ≡ true → (set_erase x s).1 ≡ 1
unfolding set_has set_erase
set_erase_found x [] h = absurd (cc h)
set_erase_found x (y ∷ ys) h = elim (Bool-cases (pair_eq x y)) [
  | inl e ↦ rw e
  | inr e ↦ rw e (set_erase_found x ys (rw e at h))
]

pub due-append-later : (now : ℕ) (xs : List Pair) → IsSorted xs → due now xs ++ later now xs ≡ xs
due-append-later now [] s = refl
due-append-later now (x ∷ xs) s = elim (Bool-cases (leb x.0 now)) [
  | inl e ↦ rw e (ap (◌∷◌ x) (due-append-later now xs s.1))
  | inr e ↦ rw (e, none_due now x xs (ground arith) s.0, all_later now x xs (ground arith) s.0)
]

later-Above : (now : ℕ) (x : Pair) (xs : List Pair) → Above x xs → Above x (later now xs)
later-Above now x [] a = tt
later-Above now x (y ∷ ys) a = elim (Bool-cases (leb y.0 now)) [
  | inl e ↦ rw e (later-Above now x ys a.1)
  | inr e ↦ rw e (a.0, later-Above now x ys a.1)
]

later-NotAt : (now p : ℕ) (xs : List Pair) → NotAt p xs → NotAt p (later now xs)
later-NotAt now p [] n = tt
later-NotAt now p (y ∷ ys) n = elim (Bool-cases (leb y.0 now)) [
  | inl e ↦ rw e (later-NotAt now p ys n.1)
  | inr e ↦ rw e (n.0, later-NotAt now p ys n.1)
]

pub later_parts :
    (now : ℕ) (xs : List Pair)
    → IsSorted xs
    → AllSmall xs
    → AllDistinct xs
    → IsSorted (later now xs) × AllSmall (later now xs) × AllDistinct (later now xs)
later_parts now [] s a d = (tt, tt, tt)
later_parts now (x ∷ xs) s a d =
    let (s', a', d') = later_parts now xs s.1 a.1 d.1 in
    elim (Bool-cases (leb x.0 now)) [
      | inl e ↦ rw e (s', a', d')
      | inr e ↦ rw e ((later-Above now x xs s.0, s'), (a.0, a'), (later-NotAt now x.1 xs d.0, d'))
    ]

due-NotAt : (now p : ℕ) (xs : List Pair) → NotAt p xs → NotAt p (due now xs)
due-NotAt now p [] n = tt
due-NotAt now p (y ∷ ys) n = ground (arith, due-NotAt now p ys n.1)

pub due_parts :
    (now : ℕ) (xs : List Pair)
    → AllSmall xs
    → AllDistinct xs
    → AllSmall (due now xs) × AllDistinct (due now xs)
due_parts now [] a d = (tt, tt)
due_parts now (x ∷ xs) a d =
    let (a', d') = due_parts now xs a.1 d.1 in
    elim (Bool-cases (leb x.0 now)) [
      | inl e ↦ rw e ((a.0, a'), (due-NotAt now x.1 xs d.0, d'))
      | inr e ↦ rw e (a', d')
    ]
