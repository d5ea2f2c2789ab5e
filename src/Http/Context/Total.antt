-- ===== src/Http/Context/Total.antt =====
-- http/httpContext.cpp: `parseRequest` over a buffer.
use tcp_net_library.Base.{
  ℕ, zero, suc, ◌+◌, ◌<◌, ◌≡◌, refl, ap, sym, ◌∙◌, Bool, true, false, List, take, drop, arith, some,
  some_inj, length, length-drop, ok, inl, inr,
}
use tcp_net_library.Buffer.{Buffer, peek, readable_bytes}
use tcp_net_library.Buffer.Invariant.{IsValid, contents, length-contents}
use tcp_net_library.Buffer.Retrieve.{Keeps}
use tcp_net_library.Buffer.Crlf.{find_crlf_ok}
use tcp_net_library.Http.Context.{HttpContext, Parsed, after_pass, wait, parse_loop, parse_request}
use tcp_net_library.Http.Context.Spec.{
  Answer, Verdict, next, done, bad, on_line, on_line-next, IsWaiting, after_line, after_split,
  parse_lines, parse,
}
use tcp_net_library.Http.Context.Stream.{parse_lines-eq-parse}
use tcp_net_library.Http.Context.Refine.{
  search-Splits, pass_of, pass_lem, pass-none, line_to_ok, take_line_ok,
}

-- The code has an answer, it is that of the specification, and the buffer left is in order, on the
-- same storage, and holds the bytes left.
pub record Agrees (b : Buffer) (spec : Answer) (code : Parsed) : Type 0 where
  pub success : Bool
  pub context : HttpContext
  pub buffer : Buffer
  pub ends : code ≡ ok (success, context, buffer)
  pub matches : spec ≡ some (success, context, contents buffer)
  pub valid : IsValid buffer
  pub storage : buffer.buffer ≡ b.buffer

after_pass-Agrees :
    (go : HttpContext → List ℕ → Answer) (og : HttpContext → Buffer → Parsed) (b b' : Buffer)
    (rest : List ℕ) (v : Verdict)
    → IsValid b
    → Keeps b rest b'
    → ((c : HttpContext) → v ≡ next c → Agrees b' (go c (contents b')) (og c b'))
    → Agrees b (after_line go (contents b) rest v) (after_pass og (pass_of b b' v))
unfolding after_line after_pass pass_of
after_pass-Agrees go og b b' rest (next c) v k ih =
    let a = ih c refl in
    record {
      success = a.success;
      context = a.context;
      buffer = a.buffer;
      ends = a.ends;
      matches = ap (go c) (sym k.bytes) ∙ a.matches;
      valid = a.valid;
      storage = a.storage ∙ k.storage;
    }
after_pass-Agrees go og b b' rest (done c) v k ih = record {
  success = true;
  context = c;
  buffer = b';
  ends = refl;
  matches = rw k.bytes;
  valid = k.valid;
  storage = k.storage;
}
after_pass-Agrees go og b b' rest (bad c) v k ih = record {
  success = false;
  context = c;
  buffer = b;
  ends = refl;
  matches = refl;
  valid = v;
  storage = refl;
}

after_pass-wait :
    (og : HttpContext → Buffer → Parsed) (c : HttpContext) (b : Buffer)
    → after_pass og (wait c b) ≡ ok (true, c, b)
unfolding after_pass
after_pass-wait og c b = refl

parse_loop-Agrees :
    (f : ℕ) (c : HttpContext) (b : Buffer) (time : ℕ)
    → IsWaiting c
    → IsValid b
    → length (contents b) < f
    → Agrees b (parse_lines f c (contents b) time) (parse_loop f c b time)
unfolding parse_lines parse_loop after_split
parse_loop-Agrees zero c b time w v h = absurd (omega arith)
parse_loop-Agrees (suc f) c b time w v h = elim (search-Splits (contents b) (peek b)) [
  | inl (n, s) ↦
      rw (s, pass-none c b time w (find_crlf_ok v ∙ ap ok n))
        (record {
          success = true;
          context = c;
          buffer = b;
          ends = after_pass-wait _ c b;
          matches = refl;
          valid = v;
          storage = refl;
        })
  | inr (k, n, s, l) ↦
      let (b', p, r) = take_line_ok k v l in
      let line = take k (contents b) in
      let shorter : length (contents b') < f =
        omega (arith, ap length r.bytes, length-drop (k + 2) (contents b)) in
      rw
        (
          s,
          pass_lem c b b' time (peek b + k) line (find_crlf_ok v ∙ ap ok n) (line_to_ok k v l) p w,
        )
        (after_pass-Agrees _ _ b b' (drop (k + 2) (contents b)) (on_line c.state c line time) v r
          (λ d e. parse_loop-Agrees f d b' time (on_line-next c d line time w e) r.valid shorter))
]

-- `parseRequest` in a state that waits for a line, on a buffer in order: the loop ends within its
-- fuel and without a fault, and its answer, its parser and the bytes that it leaves are those of
-- `parse` on the contents. The storage is untouched.
pub parse_request-Agrees :
    (c : HttpContext) (b : Buffer) (time : ℕ)
    → IsWaiting c
    → IsValid b
    → Agrees b (parse c (contents b) time) (parse_request c b time)
unfolding parse_request
parse_request-Agrees c b time w v =
    let e : length (contents b) < readable_bytes b + 1 = omega (arith, length-contents v) in
    rw (← parse_lines-eq-parse (readable_bytes b + 1) c (contents b) time e)
      (parse_loop-Agrees (readable_bytes b + 1) c b time w v e)

-- What the parser has answered, read off the specification.
pub parsed :
    (context got : HttpContext) (b : Buffer) (time : ℕ) (success : Bool) (rest : List ℕ)
    → IsWaiting context
    → IsValid b
    → parse context (contents b) time ≡ some (success, got, rest)
    → (left : Buffer) × (parse_request context b time ≡ ok (success, got, left))
      × IsValid left
      × (contents left ≡ rest)
parsed context got b time success rest w v e =
    let a = parse_request-Agrees context b time w v in
    let same = some_inj (sym a.matches ∙ e) in
    (a.buffer, a.ends ∙ ap (λ t. ok (t.0, t.1, a.buffer)) same, a.valid, ap (λ t. t.2) same)
