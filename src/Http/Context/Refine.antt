-- ===== src/Http/Context/Refine.antt =====
-- http/httpContext.cpp: one pass of the loop of `parseRequest`, and the line at the front.
use tcp_net_library.Base.{
  ℕ, suc, ◌+◌, ◌-◌, ◌≤◌, ◌≡◌, refl, ap, sym, ◌∙◌, Bool, true, false, List, [], ◌∷◌, ◌&&◌, ◌==◌,
  arith, none, some, length, take, drop, take-take_le, ok, Bool-cases, inl, inr, ◌⊎◌, sub64,
}
use tcp_net_library.Buffer.{Buffer, peek, find_crlf, search_crlf, retrieve_until}
use tcp_net_library.Buffer.Memory.{slice_ok}
use tcp_net_library.Buffer.Invariant.{IsValid, contents, length-contents}
use tcp_net_library.Buffer.Retrieve.{Keeps, retrieve_until_ok}
use tcp_net_library.Http.Text.{find}
use tcp_net_library.Http.Request.{HttpRequest}
use tcp_net_library.Http.Context.{
  HttpContext, expect_request_line, expect_request_head, got_all, Pass, line_to, pass,
  request_line_pass, request_head_pass, process_request_line, finish_request_line, finish_header,
  pass_at, ParseState, expect_request_body, wait,
}
use tcp_net_library.Http.Context.Spec.{
  split_line, Verdict, next, done, bad, on_line, request_verdict, on_request_line, on_header,
  IsWaiting,
}

-- The search for CR LF and the split of the bytes go together.
abbrev Splits : List ℕ → ℕ → Type 0
Splits xs i =
    ((search_crlf xs i ≡ none) × (split_line xs ≡ none))
    ⊎ ((k : ℕ) × (search_crlf xs i ≡ some (i + k))
        × (split_line xs ≡ some (take k xs, drop (k + 2) xs))
        × (k + 2 ≤ length xs))

pub search-Splits : (xs : List ℕ) (i : ℕ) → Splits xs i
unfolding search_crlf split_line
search-Splits [] i = inl (refl, refl)
search-Splits (x ∷ []) i = inl (refl, refl)
search-Splits (x ∷ y ∷ xs) i = elim (Bool-cases (x == 13 && y == 10)) [
  | inl e ↦ inr (0, rw e (let z : i ≡ i + 0 = omega arith in ap some z), rw e, omega arith)
  | inr e ↦ elim (search-Splits (y ∷ xs) (i + 1)) [
    | inl (n, s) ↦ inl (rw e n, rw (e, s))
    | inr (k, n, s, l) ↦
        let n_eq : suc k + 2 ≡ suc (k + 2) = omega arith in
        let drop_more : drop (suc k + 2) (x ∷ y ∷ xs) ≡ drop (k + 2) (y ∷ xs) =
          ap (λ t. drop t (x ∷ y ∷ xs)) n_eq in
        let i_eq : i + 1 + k ≡ i + suc k = omega arith in
        inr (suc k, rw (e, n) (ap some i_eq), rw (e, s, drop_more), omega arith)
  ]
]

-- The pass that a verdict stands for: from `b`, with `b'` the buffer after the line.
unfoldable pub pass_of : Buffer → Buffer → Verdict → Pass
pass_of b b' (next c) = record { success = true; has_more = true; context = c; buffer = b' }
pass_of b b' (done c) = record { success = true; has_more = false; context = c; buffer = b' }
pass_of b b' (bad c) = record { success = false; has_more = false; context = c; buffer = b }

module _ (c : HttpContext) (b b' : Buffer) (time crlf : ℕ) (line : List ℕ)
    (found : find_crlf b ≡ ok (some crlf)) (read : line_to b crlf ≡ ok line)
    (taken : retrieve_until b (crlf + 2) ≡ ok b') where
  finish_request_line_lem :
      (r : HttpRequest) (success : Bool)
      → finish_request_line c b time crlf r success
        ≡ ok (pass_of b b' (request_verdict c time r success))
  unfolding finish_request_line request_verdict pass_of
  finish_request_line_lem r true = rw taken
  finish_request_line_lem r false = refl

  request_line_pass_lem :
      request_line_pass c b time ≡ ok (pass_of b b' (on_request_line c line time))
  unfolding request_line_pass on_request_line
  request_line_pass_lem =
      rw (found, read)
        (finish_request_line_lem (process_request_line c.request line).0
          (process_request_line c.request line).1)

  request_head_pass_lem : request_head_pass c b ≡ ok (pass_of b b' (on_header c line))
  unfolding request_head_pass on_header pass_of finish_header
  request_head_pass_lem =
      rw (found, read, taken)
        (elim (Bool-cases (find b':' line == length line)) [ inl s ↦ rw s | inr s ↦ rw s ])

  pass_at_lem :
      (s : ParseState)
      → (s ≡ expect_request_line) ⊎ (s ≡ expect_request_head)
      → pass_at s c b time ≡ ok (pass_of b b' (on_line s c line time))
  unfolding pass_at on_line
  pass_at_lem expect_request_line w = request_line_pass_lem
  pass_at_lem expect_request_head w = request_head_pass_lem
  pass_at_lem expect_request_body w = ground arith
  pass_at_lem got_all w = ground arith

  pub pass_lem : IsWaiting c → pass c b time ≡ ok (pass_of b b' (on_line c.state c line time))
  unfolding pass
  pass_lem w = pass_at_lem c.state w

pass_at-none :
    (s : ParseState) (c : HttpContext) (b : Buffer) (time : ℕ)
    → (s ≡ expect_request_line) ⊎ (s ≡ expect_request_head)
    → find_crlf b ≡ ok none
    → pass_at s c b time ≡ ok (wait c b)
unfolding pass_at request_line_pass request_head_pass
pass_at-none expect_request_line c b time w e = rw e
pass_at-none expect_request_head c b time w e = rw e
pass_at-none expect_request_body c b time w e = ground arith
pass_at-none got_all c b time w e = ground arith

pub pass-none :
    (c : HttpContext) (b : Buffer) (time : ℕ)
    → IsWaiting c
    → find_crlf b ≡ ok none
    → pass c b time ≡ ok (wait c b)
unfolding pass
pass-none c b time w e = pass_at-none c.state c b time w e

-- Reading the line at the front, and taking it out.
pub line_to_ok :
    {b : Buffer} (k : ℕ)
    → IsValid b
    → k + 2 ≤ length (contents b)
    → line_to b (peek b + k) ≡ ok (take k (contents b))
line_to_ok {b} k v h =
    let n = length-contents v in
    let e : sub64 (peek b + k) (peek b) ≡ k = omega (arith, v.order, v.fits, v.small) in
    rw (e, slice_ok b.buffer b.read_index k (omega (arith, v.order, v.fits)))
      (ap ok (
        sym (
          take-take_le k (b.write_index - b.read_index) (drop b.read_index b.buffer)
            (omega (arith, v.order, v.fits)))))

pub take_line_ok :
    {b : Buffer} (k : ℕ)
    → IsValid b
    → k + 2 ≤ length (contents b)
    → (b' : Buffer) × (retrieve_until b (peek b + k + 2) ≡ ok b')
      × Keeps b (drop (k + 2) (contents b)) b'
take_line_ok {b} k v h =
    let n = length-contents v in
    let (b', p, r) =
      retrieve_until_ok (peek b + k + 2) v (omega arith) (omega (arith, v.order, v.fits)) in
    let e : peek b + k + 2 - peek b ≡ k + 2 = omega arith in
    (
      b',
      p,
      record {
        valid = r.valid;
        bytes = r.bytes ∙ ap (λ t. drop t (contents b)) e;
        storage = r.storage;
      },
    )
