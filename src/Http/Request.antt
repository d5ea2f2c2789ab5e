-- ===== src/Http/Request.antt =====
-- http/httpRequest.h and httpRequest.cpp.
use tcp_net_library.Base.{
  ℕ, ◌+◌, Bool, true, false, List, [], none, some, take, drop, if◌then◌else◌,
}
use tcp_net_library.Http.Text.{codes, str_eq, trim_start, trim_end}
use tcp_net_library.Http.Map.{StringMap, lookup, insert}

pub data Method : Type 0 where
  invaild get post head put delete : Method

pub data Version : Type 0 where
  unknow http10 http11 : Version

pub record HttpRequest : Type 0 where
  pub method : Method
  pub version : Version
  pub path : List ℕ
  pub query : List ℕ
  pub receive_time : ℕ
  pub headers : StringMap

abbrev pub empty_request : HttpRequest
empty_request = record {
  method = invaild;
  version = unknow;
  path = [];
  query = [];
  receive_time = 0;
  headers = [];
}

abbrev pub set_version : HttpRequest → Version → HttpRequest
set_version r version = record r { version = version }

-- The method that a word names.
unfoldable pub method_of : List ℕ → Method
method_of m =
    if str_eq m (codes "GET")
    then get
    else if str_eq m (codes "POST")
    then post
    else if str_eq m (codes "HEAD")
    then head
    else if str_eq m (codes "PUT")
    then put
    else if str_eq m (codes "DELETE")
    then delete
    else invaild

abbrev pub is_invaild : Method → Bool
is_invaild invaild = true
is_invaild _ = false

-- The flag is whether the word names a method.
unfoldable pub set_method : HttpRequest → List ℕ → HttpRequest × Bool
set_method r m =
    let method = method_of m in
    (record r { method = method }, if is_invaild method then false else true)

unfoldable pub method_to_string : HttpRequest → List ℕ
method_to_string r = elim r.method [
  | get ↦ codes "GET"
  | post ↦ codes "POST"
  | head ↦ codes "HEAD"
  | put ↦ codes "PUT"
  | delete ↦ codes "DELETE"
  | invaild ↦ codes "unknow"
]

abbrev pub set_path : HttpRequest → List ℕ → HttpRequest
set_path r path = record r { path = path }

abbrev pub set_query : HttpRequest → List ℕ → HttpRequest
set_query r query = record r { query = query }

abbrev pub set_receive_time : HttpRequest → ℕ → HttpRequest
set_receive_time r t = record r { receive_time = t }

-- The line and the offset of its colon.
unfoldable pub add_header : HttpRequest → List ℕ → ℕ → HttpRequest
add_header r line colon =
    let field = take colon line in
    let value = trim_end (trim_start (drop (colon + 1) line)) in
    record r { headers = insert field value r.headers }

unfoldable pub get_header : HttpRequest → List ℕ → List ℕ
get_header r field = elim (lookup field r.headers) [ some value ↦ value | none ↦ [] ]

unfoldable pub swap : HttpRequest → HttpRequest → HttpRequest × HttpRequest
swap r that = (
  record {
    method = that.method;
    version = that.version;
    path = that.path;
    query = that.query;
    receive_time = that.receive_time;
    headers = that.headers;
  },
  record {
    method = r.method;
    version = r.version;
    path = r.path;
    query = r.query;
    receive_time = r.receive_time;
    headers = r.headers;
  },
)
