-- ===== src/Http/Context/Line.antt =====
-- http/httpContext.cpp: `processRequestLine`.
use tcp_net_library.Base.{
  ℕ, ◌+◌, ◌-◌, ◌≤◌, ◌≡◌, ◌≢◌, refl, ap, sym, ◌∙◌, true, false, List, [], ◌∷◌, ◌++◌, arith, length,
  length-append, take, drop, take-append, drop-append, drop-drop, length-drop, ◌==◌, ==_refl,
  ne→==_false, append-nil, append_assoc, Bool-cases, inl, inr,
}
use tcp_net_library.Http.Text.{codes, find, find-append, find_none, Lacks, str_eq, eq_of_str_eq}
use tcp_net_library.Http.Request.{
  HttpRequest, Method, Version, http10, http11, unknow, invaild, set_method, method_of, is_invaild,
  get, post, head, put, delete,
}
use tcp_net_library.Http.Context.{process_request_line, after_method, set_protocol, set_target}

abbrev pub method_name : Method → List ℕ
method_name get = codes "GET"
method_name post = codes "POST"
method_name head = codes "HEAD"
method_name put = codes "PUT"
method_name delete = codes "DELETE"
method_name invaild = codes "unknow"

abbrev pub version_name : Version → List ℕ
version_name http11 = codes "HTTP/1.1"
version_name http10 = codes "HTTP/1.0"
version_name unknow = []

-- `METHOD path?query VERSION`, where the query may be empty, and begins with its question mark if not.
abbrev pub request_line : Method → List ℕ → List ℕ → Version → List ℕ
request_line m path query v = method_name m ++ b' ' ∷ ((path ++ query) ++ b' ' ∷ version_name v)

-- Exactly the words that are not one of the five names are no method.
method_of_name : (m : Method) → m ≢ invaild → method_of (method_name m) ≡ m
unfolding method_of
method_of_name get h = refl
method_of_name post h = refl
method_of_name head h = refl
method_of_name put h = refl
method_of_name delete h = refl
method_of_name invaild h = absurd (h refl)

method_name-Lacks : (m : Method) → Lacks b' ' (method_name m)
method_name-Lacks get = omega arith
method_name-Lacks post = omega arith
method_name-Lacks head = omega arith
method_name-Lacks put = omega arith
method_name-Lacks delete = omega arith
method_name-Lacks invaild = omega arith

known : (m : Method) → m ≢ invaild → is_invaild m ≡ false
known invaild h = absurd (h refl)
known _ h = refl

differs : (xs ys : List ℕ) → xs ≢ ys → str_eq xs ys ≡ false
differs xs ys h = elim (Bool-cases (str_eq xs ys)) [
  | inl e ↦ absurd (h (eq_of_str_eq xs ys e))
  | inr e ↦ e
]

-- The word is none of the five names.
abbrev pub IsUnknown : List ℕ → Type 0
IsUnknown word = (m : Method) → m ≢ invaild → word ≢ method_name m

method_of-IsUnknown : (word : List ℕ) → IsUnknown word → method_of word ≡ invaild
unfolding method_of
method_of-IsUnknown word u = rw (
  differs word _ (u get (λ e. cc e)),
  differs word _ (u post (λ e. cc e)),
  differs word _ (u head (λ e. cc e)),
  differs word _ (u put (λ e. cc e)),
  differs word _ (u delete (λ e. cc e)),
)

pub process_request_line-IsUnknown :
    (r : HttpRequest) (word rest : List ℕ)
    → Lacks b' ' word
    → IsUnknown word
    → process_request_line r (word ++ b' ' ∷ rest) ≡ (record r { method = invaild }, true)
unfolding process_request_line set_method
process_request_line-IsUnknown r word rest h u =
    let m = method_of-IsUnknown word u in
    let e = find-append b' ' word rest h in
    let t = take-append word (b' ' ∷ rest) (length word) refl in
    let n : (length word == length (word ++ b' ' ∷ rest)) ≡ false =
      ne→==_false _ _ (omega (arith, length-append word (b' ' ∷ rest))) in
    rw (e, t, m, n)

-- A line whose first word is no method is accepted: the flag stays true, the method is the invalid
-- one, and the request's version, path and query are left as they were.
process_request_line_unknown :
    (r : HttpRequest) (word rest : List ℕ)
    → Lacks b' ' word
    → method_of word ≡ invaild
    → let (r', success) = process_request_line r (word ++ b' ' ∷ rest) in
      (success ≡ true)
      × (r'.method ≡ invaild)
      × (r'.version ≡ r.version)
      × (r'.path ≡ r.path)
      × (r'.query ≡ r.query)
unfolding process_request_line set_method
process_request_line_unknown r word rest h m =
    let e = find-append b' ' word rest h in
    let t = take-append word (b' ' ∷ rest) (length word) refl in
    let n : (length word == length (word ++ b' ' ∷ rest)) ≡ false =
      ne→==_false _ _ (omega (arith, length-append word (b' ' ∷ rest))) in
    rw (e, t, m, n) (refl, refl, refl, refl, refl)

-- A query is empty or begins with its question mark.
abbrev pub IsQuery : List ℕ → Type 0
IsQuery [] = Unit {0}
IsQuery (x ∷ xs) = x ≡ b'?'

set_target_ok :
    (r : HttpRequest) (path query : List ℕ)
    → Lacks b'?' path
    → IsQuery query
    → r.query ≡ []
    → set_target r (path ++ query) ≡ record r { path = path; query = query }
unfolding set_target
set_target_ok r path [] h q e =
    rw (append-nil path, find_none b'?' path h, ==_refl (length path), e)
set_target_ok r path (x ∷ xs) h q e =
    let f : find b'?' (path ++ x ∷ xs) ≡ length path = rw q (find-append b'?' path xs h) in
    let n : (length path == length (path ++ x ∷ xs)) ≡ false =
      ne→==_false _ _ (omega (arith, length-append path (x ∷ xs))) in
    rw (
      f,
      n,
      take-append path (x ∷ xs) (length path) refl,
      drop-append path (x ∷ xs) (length path) refl,
    )

set_protocol_ok :
    (r : HttpRequest) (line : List ℕ) (start : ℕ) (v : Version)
    → v ≢ unknow
    → drop start line ≡ version_name v
    → start + 8 ≡ length line
    → set_protocol r line start ≡ (record r { version = v }, true)
unfolding set_protocol
set_protocol_ok r line start http10 h d l =
    let e : drop (start + 7) line ≡ codes "0" =
      sym (drop-drop 7 start (start + 7) line (omega arith)) ∙ ap (drop 7) d in
    rw (l, d, e, ==_refl (length line))
set_protocol_ok r line start http11 h d l =
    let e : drop (start + 7) line ≡ codes "1" =
      sym (drop-drop 7 start (start + 7) line (omega arith)) ∙ ap (drop 7) d in
    rw (l, d, e, ==_refl (length line))
set_protocol_ok r line start unknow h d l = absurd (h refl)

length-version_name : (v : Version) → v ≢ unknow → length (version_name v) ≡ 8
length-version_name http10 h = refl
length-version_name http11 h = refl
length-version_name unknow h = absurd (h refl)

after_method_ok :
    (r : HttpRequest) (line path query : List ℕ) (start : ℕ) (v : Version)
    → v ≢ unknow
    → Lacks b' ' (path ++ query)
    → Lacks b'?' path
    → IsQuery query
    → r.query ≡ []
    → drop start line ≡ (path ++ query) ++ b' ' ∷ version_name v
    → start ≤ length line
    → after_method r line start ≡ (record r { version = v; path = path; query = query }, true)
unfolding after_method
after_method_ok r line path query start v hv hs hq q e d s =
    let t = path ++ query in
    let f : find b' ' (drop start line) ≡ length t =
      rw d (find-append b' ' t (version_name v) hs) in
    let l : start + length t + 9 ≡ length line = omega (
      arith,
      ap length d,
      length-drop start line,
      length-append t (b' ' ∷ version_name v),
      length-version_name v hv,
    ) in
    let n : (start + length t == length line) ≡ false = ne→==_false _ _ (omega arith) in
    let k : take (start + length t - start) (drop start line) ≡ t =
      rw d (take-append t _ (start + length t - start) (omega arith)) in
    let w : drop (start + length t + 1) line ≡ version_name v =
      sym (drop-drop (length t + 1) start _ line (omega arith))
      ∙ ap (drop (length t + 1)) (d ∙ sym (append_assoc t (b' ' ∷ []) (version_name v)))
      ∙ drop-append (t ++ b' ' ∷ []) (version_name v) _
          (omega (arith, length-append t (b' ' ∷ []))) in
    rw (f, n, k, set_target_ok r path query hq q e)
      (set_protocol_ok (record r { path = path; query = query }) line (start + length t + 1) v hv w
        (omega arith))

-- A request line made of a known method, a path with no space and no question mark, a query, and a
-- known version is read back: each part is set, the rest of the request stays.
pub process_request_line_ok :
    (r : HttpRequest) (m : Method) (path query : List ℕ) (v : Version)
    → m ≢ invaild
    → v ≢ unknow
    → Lacks b' ' (path ++ query)
    → Lacks b'?' path
    → IsQuery query
    → r.query ≡ []
    → process_request_line r (request_line m path query v)
      ≡ (record r { method = m; version = v; path = path; query = query }, true)
unfolding process_request_line set_method
process_request_line_ok r m path query v hm hv hs hq q e =
    let word = method_name m in
    let tail = (path ++ query) ++ b' ' ∷ version_name v in
    let f : find b' ' (request_line m path query v) ≡ length word =
      find-append b' ' word tail (method_name-Lacks m) in
    let n : (length word == length (word ++ b' ' ∷ tail)) ≡ false =
      ne→==_false _ _ (omega (arith, length-append word (b' ' ∷ tail))) in
    let t : take (length word) (word ++ b' ' ∷ tail) ≡ word = take-append word _ _ refl in
    let d : drop (length word + 1) (word ++ b' ' ∷ tail) ≡ tail =
      ap (drop (length word + 1)) (sym (append_assoc word (b' ' ∷ []) tail))
      ∙ drop-append (word ++ b' ' ∷ []) tail _ (omega (arith, length-append word (b' ' ∷ []))) in
    rw (f, t, n, method_of_name m hm, known m hm)
      (after_method_ok (record r { method = m }) (word ++ b' ' ∷ tail) path query (length word + 1)
        v hv hs hq q e d (omega (arith, length-append word (b' ' ∷ tail))))
