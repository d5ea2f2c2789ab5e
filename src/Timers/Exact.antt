-- ===== src/Timers/Exact.antt =====
-- timerQueue.cpp: what the sets of a queue hold, against the timers in the heap.
use tcp_net_library.Base.{
  ℕ, ◌≡◌, refl, subst, ap, length, length-append, ◌+◌, Bool, true, false, not, ◌&&◌, List, [], ◌∷◌,
  arith, Option, none, some, leb, ◌==◌, Bool-cases, inl, inr, ok, ==_refl,
}
use tcp_net_library.Timers.{Pair, Timer, TimerQueue, set_erase, set_has, erase_active, get_expired}
use tcp_net_library.Timers.Due.{
  IsSorted, AllSmall, NotAt, AllDistinct, due, later, lower_part-due, due-append-later, due_parts,
  after_now-later, later_parts, set_erase_found,
}
use tcp_net_library.Timers.Algebra.{
  IsSorted-erase, length-erase, set_has-erase, set_has-due, set_has-later, at_address,
  has-at_address, at_address-has, NotAt-at_address,
}

abbrev pub expires_at : Option Timer → ℕ → Bool
expires_at none t = false
expires_at (some tm) t = tm.expiration == t

abbrev pub is_due : ℕ → Option Timer → Bool
is_due now none = false
is_due now (some tm) = leb tm.expiration now

-- The timers at the addresses of `on` wait in both sets, each once, and no others. Those of the active
-- set have the number of timers created.
pub record IsExact (w : TimerQueue) (on : ℕ → Bool) : Type 0 where
  pub sorted : IsSorted w.timers
  pub sorted_active : IsSorted w.active
  pub small : AllSmall w.timers
  pub distinct : AllDistinct w.timers
  pub same_size : length w.timers ≡ length w.active
  pub timers : (t p : ℕ) → set_has (t, p) w.timers ≡ (on p && expires_at (w.heap p) t)
  pub active : (p n : ℕ) → set_has (p, n) w.active ≡ (on p && n == w.created)
  pub alive : (p : ℕ) → on p ≡ true → (tm : Timer) × (w.heap p ≡ some tm)

pub apart : (p q : ℕ) (xs : List Pair) → at_address p xs ≡ true → NotAt q xs → (p == q) ≡ false
apart p q xs h n = elim (Bool-cases (p == q)) [
  | inl e ↦
      let same : p ≡ q = ground arith in
      absurd (cc (subst (λ t. at_address t xs ≡ true) same h, NotAt-at_address q xs n))
  | inr e ↦ e
]

pub erase_active_exact :
    (created : ℕ) (es active : List Pair)
    → IsSorted active
    → AllDistinct es
    → ((p : ℕ) → at_address p es ≡ true → set_has (p, created) active ≡ true)
    → (left : List Pair) × (erase_active created es active ≡ ok left)
      × IsSorted left
      × (length left + length es ≡ length active)
      × ((p n : ℕ)
          → set_has (p, n) left ≡ (set_has (p, n) active && not (n == created && at_address p es)))
unfolding erase_active
erase_active_exact created [] active s d h = (active, refl, s, omega arith, λ p n. ground arith)
erase_active_exact created (e ∷ es) active s d h =
    let there : set_has (e.1, created) active ≡ true = h e.1 (rw (==_refl e.1)) in
    let found = set_erase_found (e.1, created) active there in
    let kept : (p : ℕ)
        → at_address p es ≡ true
        → set_has (p, created) (set_erase (e.1, created) active).0 ≡ true =
      λ p k.
        ground
          (arith, set_has-erase (p, created) (e.1, created) active s, apart p e.1 es k d.0, h p) in
    let (left, q, t, l, m) =
      erase_active_exact created es (set_erase (e.1, created) active).0
        (IsSorted-erase (e.1, created) active s) d.1 kept in
    (
      left,
      rw found q,
      t,
      omega (arith, l, length-erase (e.1, created) active found),
      λ p n. ground (arith, m p n, set_has-erase (p, n) (e.1, created) active s),
    )

expired_at :
    (o : Option Timer) (t now : ℕ) → expires_at o t ≡ true → leb t now ≡ true → is_due now o ≡ true
expired_at none t now h k = absurd (cc h)
expired_at (some tm) t now h k = ground arith

time_of :
    (o : Option Timer) (now : ℕ)
    → is_due now o ≡ true
    → (t : ℕ) × (expires_at o t ≡ true) × (leb t now ≡ true)
time_of none now h = absurd (cc h)
time_of (some tm) now h = (tm.expiration, ==_refl tm.expiration, h)

-- The addresses of the expired timers.
pub due_address :
    (w : TimerQueue) (on : ℕ → Bool) (now p : ℕ)
    → IsExact w on
    → at_address p (due now w.timers) ≡ (on p && is_due now (w.heap p))
due_address w on now p v = elim (Bool-cases (at_address p (due now w.timers))) [
  | inl h ↦
      let (t, k) = at_address-has p (due now w.timers) h in
      ground (arith, set_has-due t p now w.timers, v.timers t p, expired_at (w.heap p) t now)
  | inr h ↦ elim (Bool-cases (on p)) [
    | inl a ↦ elim (Bool-cases (is_due now (w.heap p))) [
      | inl b ↦
          let (t, e, l) = time_of (w.heap p) now b in
          ground (
            arith,
            set_has-due t p now w.timers,
            v.timers t p,
            has-at_address t p (due now w.timers),
          )
      | inr b ↦ ground arith
    ]
    | inr a ↦ ground arith
  ]
]

not_expired :
    (o : Option Timer) (t now : ℕ)
    → (expires_at o t && not (leb t now)) ≡ (not (is_due now o) && expires_at o t)
not_expired none t now = refl
not_expired (some tm) t now = ground arith

pub get_expired-IsExact :
    (w : TimerQueue) (on : ℕ → Bool) (now : ℕ)
    → IsExact w on
    → (left : List Pair) × (get_expired w now
        ≡ ok (due now w.timers, record w { timers = later now w.timers; active = left }))
      × IsExact
          (record w { timers = later now w.timers; active = left })
          (λ p. on p && not (is_due now (w.heap p)))
unfolding get_expired
get_expired-IsExact w on now v =
    let (small, distinct) = due_parts now w.timers v.small v.distinct in
    let (s, a, d) = later_parts now w.timers v.sorted v.small v.distinct in
    let (left, p, t, l, m) =
      erase_active_exact w.created (due now w.timers) w.active v.sorted_active distinct (λ q k.
        ground (arith, v.active q w.created, due_address w on now q v, ==_refl w.created)) in
    (
      left,
      rw (lower_part-due now w.timers v.sorted v.small, after_now-later now w.timers v.sorted, p),
      record {
        sorted = s;
        sorted_active = t;
        small = a;
        distinct = d;
        same_size = omega (
          arith,
          l,
          v.same_size,
          ap length (due-append-later now w.timers v.sorted),
          length-append (due now w.timers) (later now w.timers),
        );
        timers = λ u q.
            ground
              (arith, set_has-later u q now w.timers, v.timers u q, not_expired (w.heap q) u now);
        active = λ q n. ground (arith, m q n, v.active q n, due_address w on now q v);
        alive = λ q k. v.alive q (ground arith);
      },
    )
