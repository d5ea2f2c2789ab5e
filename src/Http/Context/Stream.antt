-- ===== src/Http/Context/Stream.antt =====
-- http/httpContext.cpp: the parser over a stream that comes in parts.
use tcp_net_library.Base.{
  ℕ, zero, suc, ◌+◌, ◌<◌, ◌≡◌, refl, ap, some_inj, true, false, List, ◌++◌, arith, Option, none,
  some, length, length-append, Option-cases, inl, inr, subst,
}
use tcp_net_library.Http.Context.{HttpContext, got_all?}
use tcp_net_library.Http.Context.Spec.{
  split_line, Verdict, next, done, bad, on_line, IsWaiting, Answer, after_line, after_split,
  parse_lines, parse, split_line-length, split_line-append, on_line-next, on_line-done, on_line-bad,
}

-- Two continuations that agree on shorter bytes give the same answer.
after_line_agree :
    (go og : HttpContext → List ℕ → Answer) (xs rest : List ℕ) (v : Verdict)
    → ((c : HttpContext) → go c rest ≡ og c rest)
    → after_line go xs rest v ≡ after_line og xs rest v
unfolding after_line
after_line_agree go og xs rest (next c) h = h c
after_line_agree go og xs rest (done c) h = refl
after_line_agree go og xs rest (bad c) h = refl

after_split_agree :
    (go og : HttpContext → List ℕ → Answer) (c : HttpContext) (xs : List ℕ) (time : ℕ)
    → ((d : HttpContext) (rest : List ℕ) → length rest < length xs → go d rest ≡ og d rest)
    → (o : Option (List ℕ × List ℕ)) → split_line xs ≡ o
    → after_split go c xs time o ≡ after_split og c xs time o
unfolding after_split
after_split_agree go og c xs time h none e = refl
after_split_agree go og c xs time h (some (line, rest)) e =
    after_line_agree go og xs rest (on_line c.state c line time)
      (λ d. h d rest (omega (arith, split_line-length xs line rest e)))

-- Fuel beyond the number of bytes changes nothing.
parse_lines_fuel :
    (f g : ℕ) (c : HttpContext) (xs : List ℕ) (time : ℕ)
    → length xs < f
    → length xs < g
    → parse_lines f c xs time ≡ parse_lines g c xs time
unfolding parse_lines
parse_lines_fuel zero g c xs time h k = absurd (omega arith)
parse_lines_fuel (suc f) zero c xs time h k = absurd (omega arith)
parse_lines_fuel (suc f) (suc g) c xs time h k =
    after_split_agree _ _ c xs time
      (λ d rest l. parse_lines_fuel f g d rest time (omega arith) (omega arith)) (split_line xs)
      refl

pub parse_lines-eq-parse :
    (f : ℕ) (c : HttpContext) (xs : List ℕ) (time : ℕ)
    → length xs < f
    → parse_lines f c xs time ≡ parse c xs time
unfolding parse
parse_lines-eq-parse f c xs time h = parse_lines_fuel f (length xs + 1) c xs time h (omega arith)

abbrev go_on : ℕ → ℕ → HttpContext → List ℕ → Answer
go_on f time c rest = parse_lines f c rest time

-- One line of the induction below.
stream_line :
    (go og : HttpContext → List ℕ → Answer) (c d : HttpContext) (xs ys rest : List ℕ) (time : ℕ)
    (line tail : List ℕ) (t : Verdict)
    → on_line c.state c line time ≡ t
    → IsWaiting c
    → ((c' : HttpContext)
        → IsWaiting c'
        → go c' tail ≡ some (true, d, rest)
        → og c' (tail ++ ys) ≡ parse d (rest ++ ys) time)
    → after_line go xs tail t ≡ some (true, d, rest)
    → IsWaiting d
    → after_line og (xs ++ ys) (tail ++ ys) t ≡ parse d (rest ++ ys) time
unfolding after_line
stream_line go og c d xs ys rest time line tail (next c') o w ih e v =
    ih c' (on_line-next c c' line time w o) e
stream_line go og c d xs ys rest time line tail (done c') o w ih e v =
    let same : d ≡ c' = cc in absurd (on_line-done c c' line time w o (subst IsWaiting same v))
stream_line go og c d xs ys rest time line tail (bad c') o w ih e v = cc

stream :
    (f g : ℕ) (c d : HttpContext) (xs ys rest : List ℕ) (time : ℕ)
    → length (xs ++ ys) < g
    → IsWaiting c
    → parse_lines f c xs time ≡ some (true, d, rest)
    → IsWaiting d
    → parse_lines g c (xs ++ ys) time ≡ parse d (rest ++ ys) time
unfolding parse_lines after_split
stream zero g c d xs ys rest time h w e v = cc
stream (suc f) zero c d xs ys rest time h w e v = absurd (omega arith)
stream (suc f) (suc g) c d xs ys rest time h w e v = elim (Option-cases (split_line xs)) [
  | inl n ↦ cc (parse_lines-eq-parse (suc g) c (xs ++ ys) time h, n)
  | inr ((line, tail), s) ↦
      let e' : after_line (go_on f time) xs tail (on_line c.state c line time)
          ≡ some (true, d, rest) =
        rw s at e in
      let l : length (tail ++ ys) < g =
        omega
          (arith, split_line-length xs line tail s, length-append xs ys, length-append tail ys) in
      rw (split_line-append xs ys line tail s) (
        stream_line (go_on f time) (go_on g time) c d xs ys rest time line tail
          (on_line c.state c line time) refl w
          (λ c' w' e. stream f g c' d tail ys rest time l w' e v) e' v)
]

-- A parser that has read `xs`, refused nothing and still waits, goes on with `ys` as if both had come
-- at once: the answer does not depend on how the stream is cut into reads.
pub parse-append :
    (c d : HttpContext) (xs ys rest : List ℕ) (time : ℕ)
    → IsWaiting c
    → parse c xs time ≡ some (true, d, rest)
    → IsWaiting d
    → parse c (xs ++ ys) time ≡ parse d (rest ++ ys) time
unfolding parse
parse-append c d xs ys rest time w e v =
    stream (length xs + 1) (length (xs ++ ys) + 1) c d xs ys rest time (omega arith) w e v

refused_line :
    (go : HttpContext → List ℕ → Answer) (c d : HttpContext) (xs rest tail line : List ℕ) (time : ℕ)
    (t : Verdict)
    → IsWaiting c
    → on_line c.state c line time ≡ t
    → ((c' : HttpContext) → IsWaiting c' → go c' tail ≡ some (false, d, rest) → IsWaiting d)
    → after_line go xs tail t ≡ some (false, d, rest)
    → IsWaiting d
unfolding after_line
refused_line go c d xs rest tail line time (next c') w o ih e =
    ih c' (on_line-next c c' line time w o) e
refused_line go c d xs rest tail line time (done c') w o ih e = absurd (cc e)
refused_line go c d xs rest tail line time (bad c') w o ih e =
    let same : c' ≡ d = ap (λ t. t.1) (some_inj e) in
    subst IsWaiting same (on_line-bad c c' line time w o)

refused_lines :
    (f : ℕ) (c d : HttpContext) (xs rest : List ℕ) (time : ℕ)
    → IsWaiting c
    → parse_lines f c xs time ≡ some (false, d, rest)
    → IsWaiting d
unfolding parse_lines after_split
refused_lines zero c d xs rest time w e = absurd (cc e)
refused_lines (suc f) c d xs rest time w e = elim (Option-cases (split_line xs)) [
  | inl n ↦ absurd (cc (rw n at e))
  | inr ((line, tail), s) ↦
      let e' : after_line (go_on f time) xs tail (on_line c.state c line time)
          ≡ some (false, d, rest) =
        rw s at e in
      refused_line (go_on f time) c d xs rest tail line time (on_line c.state c line time) w refl
        (λ c' w' h. refused_lines f c' d tail rest time w' h) e'
]

-- A parser that has refused still waits for the line.
pub parse-refused :
    (c d : HttpContext) (xs rest : List ℕ) (time : ℕ)
    → IsWaiting c
    → parse c xs time ≡ some (false, d, rest)
    → IsWaiting d
unfolding parse
parse-refused c d xs rest time w e = refused_lines (length xs + 1) c d xs rest time w e

pub waiting-got_all? : (c : HttpContext) → IsWaiting c → got_all? c ≡ false
waiting-got_all? c (inl w) = rw w
waiting-got_all? c (inr w) = rw w
