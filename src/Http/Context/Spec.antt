-- ===== src/Http/Context/Spec.antt =====
-- http/httpContext.cpp, over plain bytes: one line at a time, by the state.
use tcp_net_library.Base.{
  ℕ, zero, suc, ◌+◌, ◌≡◌, Bool, true, false, List, [], ◌∷◌, ◌++◌, arith, Option, none, some, length,
  ◌==◌, ◌&&◌, if◌then◌else◌, Bool-cases, Option-cases, inl, inr, ◌⊎◌,
}
use tcp_net_library.Http.Text.{find}
use tcp_net_library.Http.Request.{HttpRequest, add_header, set_receive_time}
use tcp_net_library.Http.Context.{
  HttpContext, ParseState, expect_request_line, expect_request_head, got_all, process_request_line,
}

abbrev push_front : ℕ → Option (List ℕ × List ℕ) → Option (List ℕ × List ℕ)
push_front x none = none
push_front x (some (l, r)) = some (x ∷ l, r)

-- The bytes before the first CR LF, and those after it.
unfoldable pub split_line : List ℕ → Option (List ℕ × List ℕ)
split_line [] = none
split_line (x ∷ []) = none
split_line (x ∷ y ∷ xs) =
    let rest = push_front x (split_line (y ∷ xs)) in
    if x == 13 && y == 10 then some ([], xs) else rest

-- What a line does: the parser goes on, has the whole request, or refuses.
pub data Verdict : Type 0 where
  next done bad : HttpContext → Verdict

unfoldable pub request_verdict : HttpContext → ℕ → HttpRequest → Bool → Verdict
request_verdict c time r true =
    next (record { state = expect_request_head; request = set_receive_time r time })
request_verdict c time r false = bad (record c { request = r })

unfoldable pub on_request_line : HttpContext → List ℕ → ℕ → Verdict
on_request_line c line time =
    let parsed = process_request_line c.request line in request_verdict c time parsed.0 parsed.1

unfoldable pub on_header : HttpContext → List ℕ → Verdict
on_header c line =
    let colon = find b':' line in
    if colon == length line
    then done (record c { state = got_all })
    else next (record c { request = add_header c.request line colon })

-- In the two states that wait for a line.
unfoldable pub on_line : ParseState → HttpContext → List ℕ → ℕ → Verdict
on_line expect_request_line c line time = on_request_line c line time
on_line expect_request_head c line time = on_header c line
on_line _ c line time = done c

abbrev pub IsWaiting : HttpContext → Type 0
IsWaiting c = (c.state ≡ expect_request_line) ⊎ (c.state ≡ expect_request_head)

-- The answer: whether nothing was refused, the parser, and the bytes left.
abbrev pub Answer : Type 0
Answer = Option (Bool × HttpContext × List ℕ)

-- After a verdict on the first line of `xs`, with `rest` behind it. A refused line stays.
unfoldable pub after_line : (HttpContext → List ℕ → Answer) → List ℕ → List ℕ → Verdict → Answer
after_line go xs rest (next c) = go c rest
after_line go xs rest (done c) = some (true, c, rest)
after_line go xs rest (bad c) = some (false, c, xs)

unfoldable pub after_split :
    (HttpContext → List ℕ → Answer) → HttpContext → List ℕ → ℕ → Option (List ℕ × List ℕ) → Answer
after_split go c xs time none = some (true, c, xs)
after_split go c xs time (some (line, rest)) = after_line go xs rest (on_line c.state c line time)

unfoldable pub parse_lines : ℕ → HttpContext → List ℕ → ℕ → Answer
parse_lines zero c xs time = none
parse_lines (suc fuel) c xs time =
    after_split (λ c' rest. parse_lines fuel c' rest time) c xs time (split_line xs)

unfoldable pub parse : HttpContext → List ℕ → ℕ → Answer
parse c xs time = parse_lines (length xs + 1) c xs time

-- A line and its CR LF leave a shorter rest.
pub split_line-length :
    (xs line rest : List ℕ)
    → split_line xs ≡ some (line, rest)
    → length line + 2 + length rest ≡ length xs
unfolding split_line
split_line-length [] line rest h = cc
split_line-length (x ∷ []) line rest h = cc
split_line-length (x ∷ y ∷ xs) line rest h = elim (Bool-cases (x == 13 && y == 10)) [
  | inl e ↦ ground arith
  | inr e ↦ elim (Option-cases (split_line (y ∷ xs))) [
    | inl n ↦ ground arith
    | inr ((l, r), s) ↦ ground (arith, split_line-length (y ∷ xs) l r s)
  ]
]

-- More bytes behind leave the first line what it was.
pub split_line-append :
    (xs ys line rest : List ℕ)
    → split_line xs ≡ some (line, rest)
    → split_line (xs ++ ys) ≡ some (line, rest ++ ys)
unfolding split_line
split_line-append [] ys line rest h = cc
split_line-append (x ∷ []) ys line rest h = cc
split_line-append (x ∷ y ∷ xs) ys line rest h = elim (Bool-cases (x == 13 && y == 10)) [
  | inl e ↦ ground arith
  | inr e ↦ elim (Option-cases (split_line (y ∷ xs))) [
    | inl n ↦ ground arith
    | inr ((l, r), s) ↦ rw (e, split_line-append (y ∷ xs) ys l r s) (ground arith)
  ]
]

-- Whatever a line does, the parser that goes on waits for a header.
pub on_line-next :
    (c c' : HttpContext) (line : List ℕ) (time : ℕ)
    → IsWaiting c
    → on_line c.state c line time ≡ next c'
    → IsWaiting c'
unfolding on_line on_request_line request_verdict on_header
on_line-next c c' line time (inl w) h = inr (ground arith)
on_line-next c c' line time (inr w) h = inr (ground arith)

-- A parser that is done waits no more.
pub on_line-done :
    (c d : HttpContext) (line : List ℕ) (time : ℕ)
    → IsWaiting c
    → on_line c.state c line time ≡ done d
    → ¬ IsWaiting d
unfolding on_line on_request_line request_verdict on_header
on_line-done c d line time (inl w) h v = ground arith
on_line-done c d line time (inr w) h v = ground arith

-- A parser that refuses a line stays in its state.
pub on_line-bad :
    (c d : HttpContext) (line : List ℕ) (time : ℕ)
    → IsWaiting c
    → on_line c.state c line time ≡ bad d
    → IsWaiting d
unfolding on_line on_request_line request_verdict on_header
on_line-bad c d line time (inl w) h = inl (ground arith)
on_line-bad c d line time (inr w) h = inr (ground arith)
