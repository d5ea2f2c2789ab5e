-- ===== src/Timers/Fires.antt =====
-- timerQueue.cpp: `handleRead`, with callbacks that may cancel their own timers.
use tcp_net_library.Base.{
  ℕ, ◌≤◌, ◌≡◌, refl, ap, ◌∙◌, Bool, true, false, not, ◌&&◌, ◌||◌, List, [], ◌∷◌, arith, length,
  Option, none, some, ltb, ◌==◌, if◌then◌else◌, Bool-cases, inl, inr, Result, ok, ==_refl,
}
use tcp_net_library.Timers.{
  Pair, Timer, TimerQueue, set_has, set_insert, cancel_in_loop, reset, run_all, handle_read,
  next_expire,
}
use tcp_net_library.Timers.Due.{Above, IsSorted, due, later, due_parts}
use tcp_net_library.Timers.Algebra.{at_address, set_has-insert}
use tcp_net_library.Timers.Exact.{IsExact, is_due, due_address, get_expired-IsExact}
use tcp_net_library.Timers.Again.{stays, renewed, same_timers}
use tcp_net_library.Timers.Renewal.{reset_all_exact}

-- A callback that cancels its own timer where `stop` says so, with the id that it has.
abbrev pub cancels_itself : (ℕ → Bool) → ℕ → TimerQueue → Result TimerQueue
cancels_itself stop p u = if stop p then cancel_in_loop u.thread u (p, u.created) else ok u

-- While the expired timers run, with `c` to cancel.
abbrev calling : TimerQueue → List Pair → TimerQueue
calling w c = record w { calling_expired = true; canceling = c }

cancel_noted :
    (w : TimerQueue) (on : ℕ → Bool) (p : ℕ) (c : List Pair)
    → IsExact w on
    → on p ≡ false
    → cancel_in_loop w.thread (calling w c) (p, w.created)
      ≡ ok (calling w (set_insert (p, w.created) c).0)
unfolding cancel_in_loop
cancel_noted w on p c v off =
    let absent : set_has (p, w.created) w.active ≡ false = ground (arith, v.active p w.created) in
    let sizes : (length w.timers == length w.active) ≡ true = ground (arith, v.same_size) in
    rw (==_refl w.thread, sizes, absent)

-- The addresses that are cancelled after the callbacks.
noted_more :
    (stop : ℕ → Bool) (c : List Pair) (p q created : ℕ) (es : List Pair) (before : Bool)
    → before ≡ (set_has (q, created) c || (stop p && q == p))
    → (before || (stop q && at_address q es))
      ≡ (set_has (q, created) c || (stop q && (p == q || at_address q es)))
noted_more stop c p q created es before h = elim (Bool-cases (q == p)) [
  | inl e ↦ let same : p ≡ q = ground arith in ground (arith, ap stop same)
  | inr e ↦ ground arith
]

run_all-notes :
    (w : TimerQueue) (on stop : ℕ → Bool) (es c : List Pair)
    → IsExact w on
    → ((q : ℕ) → at_address q es ≡ true → on q ≡ false)
    → ((q : ℕ) → at_address q es ≡ true → (t : Timer) × (w.heap q ≡ some t))
    → (c' : List Pair) × (run_all (cancels_itself stop) es (calling w c) ≡ ok (calling w c'))
      × ((q : ℕ)
          → set_has (q, w.created) c' ≡ (set_has (q, w.created) c || (stop q && at_address q es)))
unfolding run_all
run_all-notes w on stop [] c v off live = (c, refl, λ q. ground arith)
run_all-notes w on stop (e ∷ es) c v off live =
    let here : at_address e.1 (e ∷ es) ≡ true = rw (==_refl e.1) in
    let (t, l) = live e.1 here in
    let after : (q : ℕ) → at_address q es ≡ true → at_address q (e ∷ es) ≡ true =
      λ q k. ground arith in
    elim (Bool-cases (stop e.1)) [
      | inl s ↦
          let (c', p, m) =
            run_all-notes w on stop es (set_insert (e.1, w.created) c).0 v
              (λ q k. off q (after q k)) (λ q k. live q (after q k)) in
          (
            c',
            rw (l, s, cancel_noted w on e.1 c v (off e.1 here)) p,
            λ q.
                m q
                ∙ noted_more stop c e.1 q w.created es
                    (set_has (q, w.created) (set_insert (e.1, w.created) c).0)
                    (rw (s, set_has-insert (q, w.created) (e.1, w.created) c, ==_refl w.created)
                      (ground arith)),
          )
      | inr s ↦
          let (c', p, m) =
            run_all-notes w on stop es c v (λ q k. off q (after q k)) (λ q k. live q (after q k)) in
          (
            c',
            rw (l, s) p,
            λ q.
                m q
                ∙ noted_more stop c e.1 q w.created es (set_has (q, w.created) c)
                    (rw s (ground arith)),
          )
    ]

IsExact-flags :
    (w : TimerQueue) (on : ℕ → Bool) (b : Bool) (c : List Pair)
    → IsExact w on
    → IsExact (record w { calling_expired = b; canceling = c }) on
IsExact-flags w on b c v = record {
  sorted = v.sorted;
  sorted_active = v.sorted_active;
  small = v.small;
  distinct = v.distinct;
  timers = v.timers;
  active = v.active;
  alive = v.alive;
  same_size = v.same_size;
}

abbrev expires_before : ℕ → Option ℕ → Bool
expires_before t none = false
expires_before t (some a) = ltb t a

Above-least : (x : Pair) (t p : ℕ) (s : List Pair) → Above x s → set_has (t, p) s ≡ true → x.0 ≤ t
unfolding set_has
Above-least x t p [] a h = absurd (cc h)
Above-least x t p (y ∷ ys) a h = ground (arith, Above-least x t p ys a.1)

armed_least :
    (t p : ℕ) (s : List Pair)
    → IsSorted s
    → (set_has (t, p) s && expires_before t (next_expire s)) ≡ false
unfolding set_has
armed_least t p [] h = refl
armed_least t p (x ∷ xs) h = ground (arith, Above-least x t p xs h.0)

-- The queue after the descriptor has fired at `now`.
pub record Fired (w w' : TimerQueue) (on stop : ℕ → Bool) (now : ℕ) : Type 0 where
  pub exact : IsExact w' (λ p. on p && (not (is_due now (w.heap p)) || stays (stop p) (w.heap p)))
  pub heap :
      (p : ℕ)
      → w'.heap p
        ≡ (if on p && is_due now (w.heap p) then renewed (stop p) now (w.heap p) else w.heap p)
  pub armed :
      (t p : ℕ) → (set_has (t, p) w'.timers && expires_before t (next_expire w'.timers)) ≡ false

-- On a queue whose sets hold exactly the timers at the addresses of `on`, those of the active set with
-- the number of timers created so far, and with callbacks that leave the queue alone but for those
-- that cancel their own timer, `handleRead` never fails. A timer that is due stays exactly where it
-- repeats and has not cancelled itself, and expires next one interval after now; the others that are
-- due are deleted, and those that are not stay as they are. Both sets hold exactly the timers that
-- stay, and no waiting timer expires before the time that the descriptor is armed for.
pub handle_read-Fired :
    (w : TimerQueue) (on stop : ℕ → Bool) (now : ℕ)
    → IsExact w on
    → (w' : TimerQueue) × (handle_read w.thread (cancels_itself stop) w now
        ≡ ok (w', next_expire w'.timers))
      × Fired w w' on stop now
unfolding handle_read reset set_has
handle_read-Fired w on stop now v =
    let gone : ℕ → Bool = λ q. on q && not (is_due now (w.heap q)) in
    let (left, p, v1) = get_expired-IsExact w on now v in
    let (small, distinct) = due_parts now w.timers v.small v.distinct in
    let off : (q : ℕ) → at_address q (due now w.timers) ≡ true → gone q ≡ false =
      λ q k. ground (arith, due_address w on now q v) in
    let live : (q : ℕ)
        → at_address q (due now w.timers) ≡ true
        → (t : Timer) × (w.heap q ≡ some t) =
      λ q k. v.alive q (ground (arith, due_address w on now q v)) in
    let w1 : TimerQueue = record w { timers = later now w.timers; active = left } in
    let (c, ran, noted) = run_all-notes w1 gone stop (due now w.timers) [] v1 off live in
    let w2 : TimerQueue = record w1 { calling_expired = false; canceling = c } in
    let (w', q, r) =
      reset_all_exact w2 gone stop now (due now w.timers) (IsExact-flags w1 gone false c v1)
        distinct small (λ q k. ground (arith, noted q)) off live in
    let kept =
      same_timers w'
        (λ q. if at_address q (due now w.timers) then stays (stop q) (w.heap q) else gone q)
        (λ p. on p && (not (is_due now (w.heap p)) || stays (stop p) (w.heap p)))
        (λ q. ground (arith, due_address w on now q v)) r.exact in
    (
      w',
      rw (==_refl w.thread, p, ran, q),
      record {
        exact = kept;
        heap = λ q.
            r.heap q
            ∙ ap (λ b. if b then renewed (stop q) now (w.heap q) else w.heap q)
                (due_address w on now q v);
        armed = λ t u. armed_least t u w'.timers kept.sorted;
      },
    )
