-- ===== src/Http/Context/Unknown.antt =====
-- http/httpContext.cpp: whole requests with an unknown method.
use tcp_net_library.Base.{ℕ, ap, inl, ◌≡◌, refl, ◌∙◌, true, List, [], ◌∷◌, ◌++◌, arith, some, ok}
use tcp_net_library.Buffer.{Buffer}
use tcp_net_library.Buffer.Invariant.{IsValid, contents}
use tcp_net_library.Http.Text.{Lacks, Lacks-append}
use tcp_net_library.Http.Map.{StringMap}
use tcp_net_library.Http.Request.{HttpRequest, empty_request, invaild, set_receive_time}
use tcp_net_library.Http.Context.{new_context, got_all, parse_request}
use tcp_net_library.Http.Context.Spec.{on_line, on_request_line, request_verdict, parse}
use tcp_net_library.Http.Context.Line.{IsUnknown, process_request_line-IsUnknown}
use tcp_net_library.Http.Context.Header.{ended, parse_next}
use tcp_net_library.Http.Context.Roundtrip.{AllOk, headers_text, add_all, in_head, parse_headers}
use tcp_net_library.Http.Context.Total.{parsed}

-- The request that the code makes of such a line, whatever stands behind the first word.
abbrev pub unread : ℕ → StringMap → HttpRequest
unread time hs = record empty_request {
  method = invaild;
  receive_time = time;
  headers = add_all [] hs;
}

-- `parseRequest` of a new parser accepts a whole request whose first word is none of the five methods,
-- whatever stands behind it on its line: the answer is success and the state is that of a whole
-- request, with the invalid method, with no version, path or query read, and with the headers stored.
pub parse_request-IsUnknown :
    (b : Buffer) (word line rest : List ℕ) (hs : StringMap) (time : ℕ)
    → IsValid b
    → contents b ≡ ended (word ++ b' ' ∷ line) (headers_text hs (ended [] rest))
    → IsUnknown word
    → Lacks b' ' word
    → Lacks 13 word
    → Lacks 13 line
    → AllOk hs
    → (left : Buffer) × (parse_request new_context b time
        ≡ ok (true, record { state = got_all; request = unread time hs }, left))
      × (contents left ≡ rest)
parse_request-IsUnknown b word line rest hs time v e u s w l h =
    let r : HttpRequest = set_receive_time (record empty_request { method = invaild }) time in
    let spec : parse new_context (ended (word ++ b' ' ∷ line) (headers_text hs (ended [] rest)))
          time
        ≡ some (true, record { state = got_all; request = unread time hs }, rest) =
      parse_next new_context (in_head r) (word ++ b' ' ∷ line) (headers_text hs (ended [] rest))
        time (Lacks-append 13 word (b' ' ∷ line) w (omega arith, l))
        (unfold on_line on_request_line in
          rw (process_request_line-IsUnknown empty_request word line s u)
            (unfold request_verdict in refl))
      ∙ parse_headers hs r rest time h in
    let (left, p, i, k) =
      parsed new_context (record { state = got_all; request = unread time hs }) b time true rest
        (inl refl) v (ap (λ t. parse new_context t time) e ∙ spec) in
    (left, p, k)
