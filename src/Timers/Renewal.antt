-- ===== src/Timers/Renewal.antt =====
-- timerQueue.cpp: `reset`, over all expired timers.
use tcp_net_library.Base.{
  ℕ, ◌≡◌, refl, ap, sym, subst, ◌∙◌, Bool, true, false, ◌||◌, List, [], ◌∷◌, arith, some, ◌==◌,
  if◌then◌else◌, Bool-cases, inl, inr, ok, ==_refl,
}
use tcp_net_library.Timers.{Pair, Timer, TimerQueue, set_has, reset_all}
use tcp_net_library.Timers.Due.{AllSmall, NotAt, AllDistinct}
use tcp_net_library.Timers.Algebra.{at_address, NotAt-at_address}
use tcp_net_library.Timers.Exact.{IsExact, apart}
use tcp_net_library.Timers.Again.{stays, renewed, reset_one_exact, same_timers}

merged :
    {A : Type 0}
    → (f f' g : ℕ → A) (p q : ℕ) (es : List Pair) → NotAt p es
    → ((q == p) ≡ false → f' q ≡ f q)
    → (if at_address q es then f' q else if q == p then f p else g q)
      ≡ (if p == q || at_address q es then f q else g q)
merged f f' g p q es n h = elim (Bool-cases (q == p)) [
  | inl e ↦
      let back : p == q ≡ true = ground arith in
      let same : q ≡ p = ground arith in
      rw (subst (λ x. at_address x es ≡ false) (sym same) (NotAt-at_address p es n), e, back)
        (ap f (sym same))
  | inr e ↦ let back : p == q ≡ false = ground arith in rw (e, back, h e)
]

-- A queue after the expired timers `es` have been dealt with.
pub record AfterReset (w w' : TimerQueue) (on stop : ℕ → Bool) (now : ℕ) (es : List Pair)
    : Type 0 where
  pub exact : IsExact w' (λ q. if at_address q es then stays (stop q) (w.heap q) else on q)
  pub heap :
      (q : ℕ) → w'.heap q ≡ (if at_address q es then renewed (stop q) now (w.heap q) else w.heap q)

pub reset_all_exact :
    (w : TimerQueue) (on stop : ℕ → Bool) (now : ℕ) (es : List Pair)
    → IsExact w on
    → AllDistinct es
    → AllSmall es
    → ((q : ℕ) → at_address q es ≡ true → set_has (q, w.created) w.canceling ≡ stop q)
    → ((q : ℕ) → at_address q es ≡ true → on q ≡ false)
    → ((q : ℕ) → at_address q es ≡ true → (t : Timer) × (w.heap q ≡ some t))
    → (w' : TimerQueue) × (reset_all w es now ≡ ok w') × AfterReset w w' on stop now es
unfolding reset_all
reset_all_exact w on stop now [] v d a c off live =
    (w, refl, record { exact = v; heap = λ q. refl })
reset_all_exact w on stop now (e ∷ es) v d a c off live =
    let here : at_address e.1 (e ∷ es) ≡ true = rw (==_refl e.1) in
    let (t, l) = live e.1 here in
    let (w1, p1, r1) =
      reset_one_exact w on (stop e.1) now e.1 t v l (off e.1 here) a.0 (c e.1 here) in
    let after : (q : ℕ) → at_address q es ≡ true → at_address q (e ∷ es) ≡ true =
      λ q k. ground arith in
    let other : (q : ℕ) → at_address q es ≡ true → (q == e.1) ≡ false =
      λ q k. apart q e.1 es k d.0 in
    let (w2, p2, r2) =
      reset_all_exact w1 (λ q. if q == e.1 then stays (stop e.1) (w.heap e.1) else on q) stop now es
        r1.exact d.1 a.1
        (λ q k. (λ i. set_has (q, r1.created i) (r1.canceling i)) ∙ c q (after q k))
        (λ q k. rw (other q k) (off q (after q k)))
        (λ q k. rw (r1.heap q, other q k) (live q (after q k))) in
    (
      w2,
      rw (p1, p2),
      record {
        exact =
            same_timers w2
              (λ q.
                if at_address q es
                then stays (stop q) (w1.heap q)
                else if q == e.1
                then stays (stop e.1) (w.heap e.1)
                else on q)
              (λ q. if at_address q (e ∷ es) then stays (stop q) (w.heap q) else on q)
              (λ q.
                merged (λ x. stays (stop x) (w.heap x)) (λ x. stays (stop x) (w1.heap x)) on e.1 q
                  es d.0 (λ k. rw (r1.heap q, k)))
              r2.exact;
        heap = λ q.
            r2.heap q
            ∙ ap (λ x. if at_address q es then renewed (stop q) now (w1.heap q) else x) (r1.heap q)
            ∙ merged (λ x. renewed (stop x) now (w.heap x)) (λ x. renewed (stop x) now (w1.heap x))
                w.heap e.1 q es d.0 (λ k. rw (r1.heap q, k));
      },
    )
