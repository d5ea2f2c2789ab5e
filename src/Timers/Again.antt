-- ===== src/Timers/Again.antt =====
-- timerQueue.cpp: `reset`, over the expired timers.
use tcp_net_library.Base.{
  ◌&&◌, not, ◌∙◌, ◌+◌, ℕ, ◌+◌, ◌<◌, ◌≡◌, refl, ap, sym, subst, Bool, true, false, arith, Option,
  none, some, ◌==◌, if◌then◌else◌, Bool-cases, inl, inr, ok, ==_refl,
}
use tcp_net_library.Reactor.Poller.{update_at}
use tcp_net_library.Timers.{
  Timer, TimerQueue, set_insert, set_has, uintptr_max, insert, restart, reset_one,
}
use tcp_net_library.Timers.Sets.{set_insert-Added}
use tcp_net_library.Timers.Algebra.{
  set_has-insert, IsSorted-insert, has-Differs, has-NotAt, AllSmall-insert, AllDistinct-insert,
}
use tcp_net_library.Timers.Exact.{IsExact}

-- Whether an expired timer stays, where `b` says that it was cancelled.
abbrev pub stays : Bool → Option Timer → Bool
stays b none = false
stays b (some t) = t.repeat && not b

-- What becomes of an expired timer.
abbrev pub renewed : Bool → ℕ → Option Timer → Option Timer
renewed b now none = none
renewed b now (some t) = if t.repeat && not b then some (restart t now) else none

-- A queue after the expired timer at `p` has been dealt with.
pub record IsReset (w w' : TimerQueue) (on : ℕ → Bool) (b : Bool) (now p : ℕ) : Type 0 where
  pub exact : IsExact w' (λ q. if q == p then stays b (w.heap p) else on q)
  pub heap : (q : ℕ) → w'.heap q ≡ (if q == p then renewed b now (w.heap p) else w.heap q)
  pub canceling : w'.canceling ≡ w.canceling
  pub created : w'.created ≡ w.created

abbrev pub with_timer : TimerQueue → ℕ → Timer → TimerQueue
with_timer w p t = record w {
  timers = (set_insert (t.expiration, p) w.timers).0;
  active = (set_insert (p, w.created) w.active).0;
  heap = update_at w.heap p (some t);
}

same : (q p : ℕ) → (q == p) ≡ true → q ≡ p
same q p e = ground arith

pub insert-IsExact :
    (w : TimerQueue) (on : ℕ → Bool) (p : ℕ) (t : Timer)
    → IsExact w on
    → on p ≡ false
    → p < uintptr_max
    → IsExact (with_timer w p t) (λ q. if q == p then true else on q)
insert-IsExact w on p t v off small =
    let absent : (u : ℕ) → set_has (u, p) w.timers ≡ false = λ u. ground (arith, v.timers u p) in
    let absent' : set_has (p, w.created) w.active ≡ false = ground (arith, v.active p w.created) in
    let a =
      set_insert-Added (t.expiration, p) w.timers
        (has-Differs (t.expiration, p) w.timers (absent t.expiration)) in
    let c =
      set_insert-Added (p, w.created) w.active (has-Differs (p, w.created) w.active absent') in
    record {
      same_size = a.longer ∙ ap (λ n. n + 1) v.same_size ∙ sym c.longer;
      sorted = IsSorted-insert (t.expiration, p) w.timers v.sorted;
      sorted_active = IsSorted-insert (p, w.created) w.active v.sorted_active;
      small = AllSmall-insert (t.expiration, p) w.timers small v.small;
      distinct =
          AllDistinct-insert (t.expiration, p) w.timers (has-NotAt p w.timers absent) v.distinct;
      timers = λ u q. elim (Bool-cases (q == p)) [
        | inl e ↦
            rw (set_has-insert (u, q) (t.expiration, p) w.timers, e)
              (let there =
                  subst (λ x. set_has (u, x) w.timers ≡ false) (sym (same q p e)) (absent u) in
                ground arith)
        | inr e ↦
            rw (set_has-insert (u, q) (t.expiration, p) w.timers, e) (ground (arith, v.timers u q))
      ];
      active = λ q n. elim (Bool-cases (q == p)) [
        | inl e ↦
            let off' = subst (λ x. on x ≡ false) (sym (same q p e)) off in
            rw (set_has-insert (q, n) (p, w.created) w.active, v.active q n, e, off') (ground arith)
        | inr e ↦ rw (set_has-insert (q, n) (p, w.created) w.active, v.active q n, e)
      ];
      alive = λ q h. elim (Bool-cases (q == p)) [
        | inl e ↦ rw e (t, refl)
        | inr e ↦ rw e (v.alive q (rw e at h))
      ];
    }

delete-IsExact :
    (w : TimerQueue) (on : ℕ → Bool) (p : ℕ)
    → IsExact w on
    → on p ≡ false
    → IsExact (record w { heap = update_at w.heap p none }) (λ q. if q == p then false else on q)
delete-IsExact w on p v off = record {
  sorted = v.sorted;
  sorted_active = v.sorted_active;
  small = v.small;
  distinct = v.distinct;
  same_size = v.same_size;
  timers = λ u q. elim (Bool-cases (q == p)) [
    | inl e ↦
        let off' = subst (λ x. on x ≡ false) (sym (same q p e)) off in rw (e, v.timers u q, off')
    | inr e ↦ rw e (v.timers u q)
  ];
  active = λ q n. elim (Bool-cases (q == p)) [
    | inl e ↦
        let off' = subst (λ x. on x ≡ false) (sym (same q p e)) off in rw (e, v.active q n, off')
    | inr e ↦ rw e (v.active q n)
  ];
  alive = λ q h. elim (Bool-cases (q == p)) [
    | inl e ↦ absurd (cc (rw e at h))
    | inr e ↦ rw e (v.alive q (rw e at h))
  ];
}

pub same_timers :
    (w : TimerQueue) (on on' : ℕ → Bool) → ((q : ℕ) → on q ≡ on' q) → IsExact w on → IsExact w on'
same_timers w on on' h v = subst (IsExact w) (λ i q. h q i) v

let_go :
    (w : TimerQueue) (on : ℕ → Bool) (b : Bool) (now p : ℕ) (t : Timer)
    → IsExact w on
    → w.heap p ≡ some t
    → on p ≡ false
    → (t.repeat && not b) ≡ false
    → IsReset w (record w { heap = update_at w.heap p none }) on b now p
let_go w on b now p t v live off e = record {
  exact =
      same_timers (record w { heap = update_at w.heap p none })
        (λ q. if q == p then false else on q) (λ q. if q == p then stays b (w.heap p) else on q)
        (λ q. rw (live, e)) (delete-IsExact w on p v off);
  heap = λ q. rw (live, e);
  canceling = refl;
  created = refl;
}

pub reset_one_exact :
    (w : TimerQueue) (on : ℕ → Bool) (b : Bool) (now p : ℕ) (t : Timer)
    → IsExact w on
    → w.heap p ≡ some t
    → on p ≡ false
    → p < uintptr_max
    → set_has (p, w.created) w.canceling ≡ b
    → (w' : TimerQueue) × (reset_one w p now ≡ ok w') × IsReset w w' on b now p
unfolding reset_one insert
reset_one_exact w on b now p t v live off small kept = elim (Bool-cases (t.repeat && not b)) [
  | inl e ↦
      let t' = record t { expiration = now + t.delta } in
      let again : t.repeat ≡ true = ground arith in
      let uncanceled : b ≡ false = ground arith in
      let absent : set_has (t'.expiration, p) w.timers ≡ false =
        ground (arith, v.timers t'.expiration p) in
      let absent' : set_has (p, w.created) w.active ≡ false =
        ground (arith, v.active p w.created) in
      let a =
        set_insert-Added (t'.expiration, p) w.timers
          (has-Differs (t'.expiration, p) w.timers absent) in
      let c =
        set_insert-Added (p, w.created) w.active (has-Differs (p, w.created) w.active absent') in
      (
        with_timer w p t',
        rw (live, kept, again, uncanceled, ==_refl p, a.new, c.new),
        record {
          exact =
              same_timers (with_timer w p t') (λ q. if q == p then true else on q)
                (λ q. if q == p then stays b (w.heap p) else on q)
                (λ q. rw (live, again, uncanceled)) (insert-IsExact w on p t' v off small);
          heap = λ q. rw (live, again, uncanceled);
          canceling = refl;
          created = refl;
        },
      )
  | inr e ↦ (
    record w { heap = update_at w.heap p none },
    rw (live, kept, e),
    let_go w on b now p t v live off e,
  )
]
