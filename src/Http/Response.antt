-- ===== src/Http/Response.antt =====
-- http/httpResponse.h and httpResponse.cpp: a response, and its bytes.
pub mod Written
use tcp_net_library.Base.{
  decimal, snprintf, ℕ, zero, suc, ◌+◌, ◌/◌, ◌%◌, Bool, true, false, List, [], ◌∷◌, ◌++◌, length,
  take, ltb, if◌then◌else◌, Result, ok, fault, ◌>>=◌,
}
use tcp_net_library.Buffer.{Buffer, append}
use tcp_net_library.Http.Text.{codes}
use tcp_net_library.Http.Map.{StringMap, insert}

pub data HttpStatusCode : Type 0 where
  unknow ok200 moved_permently301 bad_request400 not_found404 : HttpStatusCode

abbrev pub code_value : HttpStatusCode → ℕ
code_value unknow = 0
code_value ok200 = 200
code_value moved_permently301 = 301
code_value bad_request400 = 400
code_value not_found404 = 404

pub record HttpResponse : Type 0 where
  pub headers : StringMap
  pub status_code : HttpStatusCode
  pub status_message : List ℕ
  pub close_connection : Bool
  pub body : List ℕ

abbrev pub new_response : Bool → HttpResponse
new_response close = record {
  headers = [];
  status_code = unknow;
  status_message = [];
  close_connection = close;
  body = [];
}

abbrev pub set_status_code : HttpResponse → HttpStatusCode → HttpResponse
set_status_code r code = record r { status_code = code }

abbrev pub set_status_message : HttpResponse → List ℕ → HttpResponse
set_status_message r message = record r { status_message = message }

abbrev pub set_close_connection : HttpResponse → Bool → HttpResponse
set_close_connection r on = record r { close_connection = on }

abbrev pub set_response_header : HttpResponse → List ℕ → List ℕ → HttpResponse
set_response_header r key value = record r { headers = insert key value r.headers }

abbrev pub set_content_type : HttpResponse → List ℕ → HttpResponse
set_content_type r content_type = set_response_header r (codes "Content-Type") content_type

abbrev pub set_body : HttpResponse → List ℕ → HttpResponse
set_body r body = record r { body = body }

abbrev pub crlf : List ℕ
crlf = 13 ∷ 10 ∷ []

-- Into 32 bytes.
abbrev pub printed : List ℕ → List ℕ
printed text = snprintf 32 text

abbrev pub header_pieces : StringMap → List (List ℕ)
header_pieces [] = []
header_pieces ((key, value) ∷ hs) = key ∷ codes ": " ∷ value ∷ crlf ∷ header_pieces hs

abbrev pub connection_pieces : HttpResponse → List (List ℕ)
connection_pieces r =
    if r.close_connection
    then (codes "Connection: close" ++ crlf) ∷ []
    else printed (codes "Content-Length: " ++ (decimal (length r.body) ++ crlf))
      ∷ (codes "Connection: Keep-Alive" ++ crlf)
      ∷ []

-- What `appendTobuffer` appends, call by call.
abbrev pub pieces : HttpResponse → List (List ℕ)
pieces r =
    printed (codes "HTTP/1.1 " ++ (decimal (code_value r.status_code) ++ 32 ∷ []))
    ∷ r.status_message
    ∷ crlf
    ∷ (connection_pieces r ++ (header_pieces r.headers ++ crlf ∷ r.body ∷ []))

unfoldable pub append_all : Buffer → List (List ℕ) → Result Buffer
append_all b [] = ok b
append_all b (xs ∷ xss) = append b xs >>= λ c. append_all c xss

unfoldable pub append_to_buffer : HttpResponse → Buffer → Result Buffer
append_to_buffer r b = append_all b (pieces r)
