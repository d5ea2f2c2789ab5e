-- ===== src/Http/Context/Header.antt =====
-- http/httpContext.cpp and http/httpRequest.cpp: one line of the head, written out as text.
use tcp_net_library.Base.{
  ℕ, suc, ◌+◌, ◌≡◌, refl, ap, sym, ◌∙◌, true, false, List, [], ◌∷◌, ◌++◌, arith, some, length,
  length-append, drop, take-append, drop-append, append_assoc, ◌==◌, ne→==_false,
}
use tcp_net_library.Http.Text.{Lacks, isspace, trim_start, trim_end}
use tcp_net_library.Http.Map.{insert}
use tcp_net_library.Http.Request.{HttpRequest, add_header}
use tcp_net_library.Http.Context.{HttpContext}
use tcp_net_library.Http.Context.Spec.{
  split_line, on_line, next, done, parse, parse_lines, after_split, after_line,
}
use tcp_net_library.Http.Context.Stream.{parse_lines-eq-parse}

-- A line with CR LF behind it.
abbrev pub ended : List ℕ → List ℕ → List ℕ
ended line rest = line ++ 13 ∷ 10 ∷ rest

split_line-ended :
    (line rest : List ℕ) → Lacks 13 line → split_line (ended line rest) ≡ some (line, rest)
unfolding split_line
split_line-ended [] rest h = refl
split_line-ended (x ∷ []) rest h = ground arith
split_line-ended (x ∷ y ∷ xs) rest h =
    let n : (x == 13) ≡ false = ne→==_false x 13 h.0 in rw (n, split_line-ended (y ∷ xs) rest h.1)

step_next :
    (f : ℕ) (c d : HttpContext) (line rest : List ℕ) (time : ℕ)
    → Lacks 13 line
    → on_line c.state c line time ≡ next d
    → parse_lines (suc f) c (ended line rest) time ≡ parse_lines f d rest time
unfolding parse_lines after_split after_line
step_next f c d line rest time h e = rw (split_line-ended line rest h, e)

step_done :
    (f : ℕ) (c d : HttpContext) (line rest : List ℕ) (time : ℕ)
    → Lacks 13 line
    → on_line c.state c line time ≡ done d
    → parse_lines (suc f) c (ended line rest) time ≡ some (true, d, rest)
unfolding parse_lines after_split after_line
step_done f c d line rest time h e = rw (split_line-ended line rest h, e)

length-ended : (line rest : List ℕ) → length (ended line rest) ≡ length line + 2 + length rest
length-ended line rest = omega (arith, length-append line (13 ∷ 10 ∷ rest))

pub parse_next :
    (c d : HttpContext) (line rest : List ℕ) (time : ℕ)
    → Lacks 13 line
    → on_line c.state c line time ≡ next d
    → parse c (ended line rest) time ≡ parse d rest time
parse_next c d line rest time h e =
    let f = length (ended line rest) in
    sym (parse_lines-eq-parse (suc f) c (ended line rest) time (omega arith))
    ∙ step_next f c d line rest time h e
    ∙ parse_lines-eq-parse f d rest time (omega (arith, length-ended line rest))

pub parse_done :
    (c d : HttpContext) (line rest : List ℕ) (time : ℕ)
    → Lacks 13 line
    → on_line c.state c line time ≡ done d
    → parse c (ended line rest) time ≡ some (true, d, rest)
parse_done c d line rest time h e =
    let f = length (ended line rest) in
    sym (parse_lines-eq-parse (suc f) c (ended line rest) time (omega arith))
    ∙ step_done f c d line rest time h e

-- The first byte is no space.
abbrev pub HeadOk : List ℕ → Type 0
HeadOk [] = Unit {0}
HeadOk (x ∷ xs) = isspace x ≡ false

-- The last byte is no space.
abbrev pub LastOk : List ℕ → Type 0
LastOk [] = Unit {0}
LastOk (x ∷ []) = isspace x ≡ false
LastOk (x ∷ y ∷ xs) = LastOk (y ∷ xs)

trim_start_ok : (xs : List ℕ) → HeadOk xs → trim_start xs ≡ xs
unfolding trim_start
trim_start_ok [] h = refl
trim_start_ok (x ∷ xs) h = rw h

trim_end_ok : (xs : List ℕ) → LastOk xs → trim_end xs ≡ xs
unfolding trim_end
trim_end_ok [] h = refl
trim_end_ok (x ∷ []) h = rw h
trim_end_ok (x ∷ y ∷ xs) h = rw (trim_end_ok (y ∷ xs) h)

-- One blank stands before the value.
trimmed : (xs : List ℕ) → HeadOk xs → LastOk xs → trim_end (trim_start (32 ∷ xs)) ≡ xs
trimmed xs h l = ap trim_end (drop_blank xs) ∙ ap trim_end (trim_start_ok xs h) ∙ trim_end_ok xs l
  where
    drop_blank : (ys : List ℕ) → trim_start (32 ∷ ys) ≡ trim_start ys
    drop_blank ys = unfold trim_start isspace in refl

pub record HeaderOk (field value : List ℕ) : Type 0 where
  pub no_colon : Lacks b':' field
  pub no_cr : Lacks 13 field
  pub value_no_cr : Lacks 13 value
  pub first : HeadOk value
  pub last : LastOk value

abbrev pub header_line : List ℕ → List ℕ → List ℕ
header_line field value = field ++ b':' ∷ 32 ∷ value

pub add_header_ok :
    (r : HttpRequest) (field value : List ℕ)
    → HeaderOk field value
    → add_header r (header_line field value) (length field)
      ≡ record r { headers = insert field value r.headers }
unfolding add_header
add_header_ok r field value h =
    let t = take-append field (b':' ∷ 32 ∷ value) (length field) refl in
    let d : drop (length field + 1) (header_line field value) ≡ 32 ∷ value =
      ap (drop (length field + 1)) (sym (append_assoc field (b':' ∷ []) (32 ∷ value)))
      ∙ drop-append (field ++ b':' ∷ []) (32 ∷ value) _
          (omega (arith, length-append field (b':' ∷ []))) in
    rw (t, d, trimmed value h.first h.last)
