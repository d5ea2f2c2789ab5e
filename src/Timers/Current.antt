-- ===== src/Timers/Current.antt =====
-- timerQueue.cpp: the sizes of both sets through `getExpired`.
use tcp_net_library.Base.{
  ℕ, subst, length-append, ◌+◌, ◌≡◌, ◌≢◌, refl, ap, sym, true, false, List, [], ◌∷◌, ◌++◌, arith,
  length, Bool-cases, inl, inr, ok,
}
use tcp_net_library.Timers.{
  Pair, pair_eq, TimerQueue, set_erase, set_has, erase_active, get_expired,
}
use tcp_net_library.Timers.Due.{
  IsSorted, AllSmall, NotAt, AllDistinct, due, later, lower_part-due, after_now-later,
  due-append-later, later_parts, set_erase_found,
}
use tcp_net_library.Timers.Algebra.{length-erase}

-- Every timer is in the active set, with the number of timers created so far.
abbrev pub AllActive : ℕ → List Pair → List Pair → Type 0
AllActive created [] active = Unit {0}
AllActive created (x ∷ xs) active =
    (set_has (x.1, created) active ≡ true) × AllActive created xs active

both_equal : (x y z : Pair) → pair_eq x y ≡ false → pair_eq y z ≡ true → pair_eq x z ≡ true → ⊥
both_equal x y z n e k = ground arith

set_has-erase_ne :
    (x y : Pair) (s : List Pair)
    → pair_eq x y ≡ false
    → set_has x s ≡ true
    → set_has x (set_erase y s).0 ≡ true
unfolding set_has set_erase
set_has-erase_ne x y [] n h = h
set_has-erase_ne x y (z ∷ zs) n h = elim (Bool-cases (pair_eq y z)) [
  | inl e ↦ elim (Bool-cases (pair_eq x z)) [
    | inl k ↦ absurd (both_equal x y z n e k)
    | inr k ↦ rw e (rw k at h)
  ]
  | inr e ↦ elim (Bool-cases (pair_eq x z)) [
    | inl k ↦ rw (e, k)
    | inr k ↦ rw (e, k) (set_has-erase_ne x y zs n (rw k at h))
  ]
]

other_address : (created p : ℕ) (x : Pair) → x.1 ≢ p → pair_eq (x.1, created) (p, created) ≡ false
other_address created p x h = ground arith

AllActive-erase :
    (created p : ℕ) (xs active : List Pair)
    → NotAt p xs
    → AllActive created xs active
    → AllActive created xs (set_erase (p, created) active).0
AllActive-erase created p [] active n a = tt
AllActive-erase created p (x ∷ xs) active n a = (
  set_has-erase_ne (x.1, created) (p, created) active (other_address created p x n.0) a.0,
  AllActive-erase created p xs active n.1 a.1,
)

-- The active set loses one element for each of `es`, and none of `rest`.
erase_active_ok :
    (created : ℕ) (es rest active : List Pair)
    → AllDistinct (es ++ rest)
    → AllActive created (es ++ rest) active
    → (left : List Pair) × (erase_active created es active ≡ ok left)
      × (length left + length es ≡ length active)
      × AllActive created rest left
unfolding erase_active
erase_active_ok created [] rest active d a = (active, refl, omega arith, a)
erase_active_ok created (e ∷ es) rest active d a =
    let found = set_erase_found (e.1, created) active a.0 in
    let (left, p, l, k) =
      erase_active_ok created es rest (set_erase (e.1, created) active).0 d.1
        (AllActive-erase created e.1 (es ++ rest) active d.0 a.1) in
    (left, rw found p, omega (arith, length-erase (e.1, created) active found), k)

-- The queue of a loop while no timer has been created since those in it were entered.
record IsCurrent (w : TimerQueue) : Type 0 where
  pub sorted : IsSorted w.timers
  pub small : AllSmall w.timers
  pub distinct : AllDistinct w.timers
  pub active : AllActive w.created w.timers w.active
  pub same_size : length w.timers ≡ length w.active

-- While no timer has been created since those of a queue in order were entered, `getExpired` never
-- fails: it returns exactly the timers that are due, in order, and takes exactly them from both sets;
-- the queue stays in order.
get_expired_ok :
    (w : TimerQueue) (now : ℕ)
    → IsCurrent w
    → (left : List Pair) × (get_expired w now
        ≡ ok (due now w.timers, record w { timers = later now w.timers; active = left }))
      × IsCurrent (record w { timers = later now w.timers; active = left })
unfolding get_expired
get_expired_ok w now v =
    let split = due-append-later now w.timers v.sorted in
    let (left, p, l, k) =
      erase_active_ok w.created (due now w.timers) (later now w.timers) w.active
        (subst AllDistinct (sym split) v.distinct)
        (subst (λ t. AllActive w.created t w.active) (sym split) v.active) in
    let (s, a, d) = later_parts now w.timers v.sorted v.small v.distinct in
    (
      left,
      rw (lower_part-due now w.timers v.sorted v.small, after_now-later now w.timers v.sorted, p),
      record {
        sorted = s;
        small = a;
        distinct = d;
        active = k;
        same_size = omega (
          arith,
          l,
          v.same_size,
          ap length split,
          length-append (due now w.timers) (later now w.timers),
        );
      },
    )
