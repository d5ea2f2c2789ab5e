-- ===== src/Net/Pool/Rotation.antt =====
-- eventLoopThreadPool.cpp: repeated calls of `getNextLoop`.
use tcp_net_library.Base.{
  ℕ, zero, suc, ◌+◌, ◌≤◌, ◌<◌, ◌≡◌, refl, ap, sym, ◌∙◌, List, [], ◌∷◌, arith, some, length, take,
  drop, take_all, get_elem?, leb, if◌then◌else◌, Bool-cases, inl, inr, leb→le, leb_false→lt, ltb,
  ◌||◌, ◌==◌, true, ==_refl, Result, ok, ◌>>=◌,
}
use tcp_net_library.Net.Pool.{Pool, choose, get_next_loop}

-- The loops that `n` calls return.
unfoldable pub next_loops : ℕ → Pool → Result (List ℕ × Pool)
next_loops zero w = ok ([], w)
next_loops (suc n) w =
    get_next_loop w.thread w >>= λ r. next_loops n r.1 >>= λ s. ok (r.0 ∷ s.0, s.1)

split_at :
    (xs : List ℕ) (k : ℕ)
    → k < length xs
    → (x : ℕ) × (get_elem? xs k ≡ some x) × (drop k xs ≡ x ∷ drop (k + 1) xs)
split_at [] k h = absurd (omega arith)
split_at (x ∷ xs) zero h = (x, refl, refl)
split_at (x ∷ xs) (suc k) h =
    let (y, p, q) = split_at xs k (omega arith) in
    let e : suc (k + 1) ≡ suc k + 1 = omega arith in (y, p, q ∙ ap (λ t. y ∷ drop t (x ∷ xs)) e)

-- The place after `k`, in turn.
abbrev wrapped : ℕ → ℕ → ℕ
wrapped len k = if leb len k then 0 else k

choose_ok :
    (ls : List ℕ) (w : Pool) (x : ℕ)
    → w.next < length ls
    → get_elem? ls w.next ≡ some x
    → choose ls w ≡ ok (x, record w { next = wrapped (length w.loops) (w.next + 1) })
unfolding choose
choose_ok [] w x l e = absurd (omega arith)
choose_ok (y ∷ ys) w x l e = rw e

chosen :
    (w : Pool) (x : ℕ)
    → w.next < length w.loops
    → get_elem? w.loops w.next ≡ some x
    → get_next_loop w.thread w ≡ ok (x, record w { next = wrapped (length w.loops) (w.next + 1) })
unfolding get_next_loop
chosen w x l e = rw (==_refl w.thread) (choose_ok w.loops w x l e)

-- While the pool's end is not passed, calls return its loops from the next place on, in order.
next_loops_lem :
    (n : ℕ) (w : Pool)
    → w.next < length w.loops
    → w.next + n ≤ length w.loops
    → next_loops n w
      ≡ ok (take n (drop w.next w.loops), record w { next = wrapped (length w.loops) (w.next + n) })
unfolding next_loops
next_loops_lem zero w l h =
    let e : wrapped (length w.loops) (w.next + 0) ≡ w.next = ground arith in
    ap (λ t. ok ([], record w { next = t })) (sym e)
next_loops_lem (suc n) w l h =
    let (x, p, q) = split_at w.loops w.next l in
    elim (Bool-cases (leb (length w.loops) (w.next + 1))) [
      | inl e ↦ let last : n ≡ 0 = omega (arith, leb→le _ _ e) in rw (chosen w x l p, q, last)
      | inr e ↦
          let more : w.next + 1 < length w.loops = leb_false→lt _ _ e in
          let sums : w.next + 1 + n ≡ w.next + suc n = omega arith in
          rw (
            chosen w x l p,
            q,
            e,
            next_loops_lem n (record w { next = w.next + 1 }) more (omega arith),
            sums,
          )
    ]

-- As many calls as there are loops, from the first place on, return each loop once, in order, and
-- lead back to the first place.
next_loops_turn :
    (w : Pool) → 0 < length w.loops → w.next ≡ 0 → next_loops (length w.loops) w ≡ ok (w.loops, w)
next_loops_turn w l z =
    let e : wrapped (length w.loops) (w.next + length w.loops) ≡ w.next = ground arith in
    let whole : take (length w.loops) (drop w.next w.loops) ≡ w.loops =
      rw z (take_all (length w.loops) w.loops (omega arith)) in
    next_loops_lem (length w.loops) w (omega arith) (omega arith) ∙ rw (whole, e)

-- The next place is that of a loop, where there is one.
abbrev pub InTurn : Pool → Type 0
InTurn w = (ltb w.next (length w.loops) || length w.loops == 0) ≡ true

no_loops : (xs : List ℕ) → length xs ≡ 0 → xs ≡ []
no_loops [] h = refl
no_loops (x ∷ xs) h = absurd (omega arith)

pub get_next_loop-InTurn :
    (w : Pool)
    → InTurn w
    → (loop : ℕ) × (p : Pool) × (get_next_loop w.thread w ≡ ok (loop, p))
      × InTurn p
      × (p.thread ≡ w.thread)
unfolding get_next_loop choose
get_next_loop-InTurn w h = elim (Bool-cases (length w.loops == 0)) [
  | inl e ↦
      let none_there = no_loops w.loops (ground arith) in
      (w.base_loop, w, rw (==_refl w.thread) (ap (λ ls. choose ls w) none_there), h, refl)
  | inr e ↦
      let l : w.next < length w.loops = ground arith in
      let (x, p, q) = split_at w.loops w.next l in
      (
        x,
        record w { next = wrapped (length w.loops) (w.next + 1) },
        chosen w x l p,
        ground arith,
        refl,
      )
]
