-- ===== src/Http/Context/Arrival.antt =====
-- http/httpContext.cpp: `parseRequest` on bytes that come in two reads.
use tcp_net_library.Base.{
  ℕ, ◌+◌, ◌≤◌, ◌≡◌, ap, sym, subst, ◌∙◌, Bool, true, List, arith, length, ok, some, some_inj,
  ok_inj,
}
use tcp_net_library.Buffer.{Buffer, max_size, cheap_prepared, append}
use tcp_net_library.Buffer.Invariant.{IsValid, contents}
use tcp_net_library.Buffer.Append.{append_ok}
use tcp_net_library.Http.Context.{HttpContext, Parsed, parse_request}
use tcp_net_library.Http.Context.Spec.{IsWaiting, parse}
use tcp_net_library.Http.Context.Stream.{parse-append}
use tcp_net_library.Http.Context.Total.{parse_request-Agrees}

-- Both calls have an answer: the same success and the same parser, and they leave the same bytes.
pub record SameAnswer (first second : Parsed) : Type 0 where
  pub success : Bool
  pub context : HttpContext
  pub left : Buffer
  pub right : Buffer
  pub first_ends : first ≡ ok (success, context, left)
  pub second_ends : second ≡ ok (success, context, right)
  pub same_bytes : contents left ≡ contents right

agree_same :
    (c d : HttpContext) (a b : Buffer) (time : ℕ)
    → IsWaiting c
    → IsWaiting d
    → IsValid a
    → IsValid b
    → parse c (contents a) time ≡ parse d (contents b) time
    → SameAnswer (parse_request c a time) (parse_request d b time)
agree_same c d a b time w x v y e =
    let p = parse_request-Agrees c a time w v in
    let q = parse_request-Agrees d b time x y in
    let same = some_inj (sym p.matches ∙ e ∙ q.matches) in
    record {
      success = p.success;
      context = p.context;
      left = p.buffer;
      right = q.buffer;
      first_ends = p.ends;
      second_ends = q.ends ∙ ap (λ t. ok (t.0, t.1, q.buffer)) (sym same);
      same_bytes = ap (λ t. t.2) same;
    }

-- A call of `parseRequest` that has refused nothing and still waits: where more bytes are appended to
-- the buffer that it has left and `parseRequest` is called again at the same time, the second call
-- succeeds, with the answer, the parser and the bytes left of one call on all bytes at once, while
-- the sizes stay below the largest vector.
pub parse_request-append :
    (c d : HttpContext) (b left : Buffer) (more : List ℕ) (time : ℕ)
    → IsWaiting c
    → IsValid b
    → parse_request c b time ≡ ok (true, d, left)
    → IsWaiting d
    → length b.buffer + length more + cheap_prepared ≤ max_size
    → (joined : Buffer) × (whole : Buffer) × (append left more ≡ ok joined)
      × (append b more ≡ ok whole)
      × SameAnswer (parse_request d joined time) (parse_request c whole time)
parse_request-append c d b left more time w v e x h =
    let a = parse_request-Agrees c b time w v in
    let same = ok_inj (sym a.ends ∙ e) in
    let storage : left.buffer ≡ b.buffer = ap (λ t. t.2.buffer) (sym same) ∙ a.storage in
    let valid : IsValid left = subst IsValid (ap (λ t. t.2) same) a.valid in
    let spec : parse c (contents b) time ≡ some (true, d, contents left) =
      a.matches ∙ ap (λ t. some (t.0, t.1, contents t.2)) same in
    let (joined, p, j) = append_ok {b = left} more valid (omega (arith, ap length storage)) in
    let (whole, q, k) = append_ok {b = b} more v h in
    (
      joined,
      whole,
      p,
      q,
      agree_same d c joined whole time x w j.valid k.valid (
          ap (λ t. parse d t time) j.bytes
          ∙ sym (parse-append c d (contents b) more (contents left) time w spec x)
          ∙ ap (λ t. parse c t time) (sym k.bytes)),
    )
