-- ===== src/Http/Response/Written.antt =====
-- http/httpResponse.cpp: `appendTobuffer`.
use tcp_net_library.Base.{
  ℕ, ◌+◌, ◌≤◌, ◌≡◌, refl, ap, sym, ◌∙◌, List, [], ◌∷◌, ◌++◌, append-nil, append_assoc, arith,
  length, length-append, ok,
}
use tcp_net_library.Buffer.{Buffer, max_size, cheap_prepared}
use tcp_net_library.Buffer.Invariant.{IsValid, contents}
use tcp_net_library.Buffer.Append.{Holds, append_ok}
use tcp_net_library.Http.Response.{HttpResponse, pieces, append_all, append_to_buffer}

abbrev concat : List (List ℕ) → List ℕ
concat [] = []
concat (xs ∷ xss) = xs ++ concat xss

-- The response as text.
abbrev pub response_text : HttpResponse → List ℕ
response_text r = concat (pieces r)

append_all_ok :
    (xss : List (List ℕ)) {b : Buffer}
    → IsValid b
    → length b.buffer + length (concat xss) + cheap_prepared ≤ max_size
    → (c : Buffer) × (append_all b xss ≡ ok c)
      × Holds b (contents b ++ concat xss) (length (concat xss)) c
unfolding append_all
append_all_ok [] {b} v s =
    (b, refl, record { valid = v; bytes = sym (append-nil (contents b)); bound = omega arith })
append_all_ok (xs ∷ xss) {b} v s =
    let l = length-append xs (concat xss) in
    let (c, p, h) = append_ok xs v (omega arith) in
    let (d, q, k) = append_all_ok xss h.valid (omega (arith, h.bound)) in
    (
      d,
      rw p q,
      record {
        valid = k.valid;
        bytes =
            k.bytes ∙ ap (λ t. t ++ concat xss) h.bytes ∙ append_assoc (contents b) xs (concat xss);
        bound = omega (arith, h.bound, k.bound);
      },
    )

-- `appendTobuffer` never fails while the sizes stay below the largest vector, and puts the text of
-- the response behind what the buffer holds.
pub append_to_buffer_ok :
    (r : HttpResponse) {b : Buffer}
    → IsValid b
    → length b.buffer + length (response_text r) + cheap_prepared ≤ max_size
    → (c : Buffer) × (append_to_buffer r b ≡ ok c)
      × Holds b (contents b ++ response_text r) (length (response_text r)) c
unfolding append_to_buffer
append_to_buffer_ok r v s = append_all_ok (pieces r) v s
