-- ===== src/Buffer.antt =====
-- buffer.h and buffer.cpp: the byte buffer of a connection.
-- `buffer_` is a list of bytes, the two indices are 64-bit words (`ssize_t` by its bit pattern), a
-- pointer into the storage is its offset from `begin()`.
-- A read or a copy outside the storage is the fault `out_of_bounds`, a resize past the largest
-- vector is `length_error`.
pub mod Memory
pub mod Invariant
pub mod Space
pub mod Append
pub mod Retrieve
pub mod Shrink
pub mod Crlf
pub mod Trace
use tcp_net_library.Base.{
  ℕ, ◌+◌, ◌-◌, ◌^◌, Bool, List, [], ◌∷◌, ◌++◌, Option, none, some, length, take, drop, replicate,
  ltb, leb, ◌==◌, ◌&&◌, if◌then◌else◌, add64, sub64, Result, ok, fault, length_error, out_of_bounds,
  assert, ◌>>=◌, ◌>>◌,
}

abbrev pub cheap_prepared : ℕ
cheap_prepared = 8

abbrev pub initial_size : ℕ
initial_size = 1024

pub record Buffer : Type 0 where
  pub buffer : List ℕ
  pub read_index : ℕ
  pub write_index : ℕ

-- `vector::max_size()`
abbrev pub max_size : ℕ
max_size = 2 ^ 63 - 1

-- `vector::resize`: cuts, or fills up with zeros.
unfoldable pub resize : List ℕ → ℕ → Result (List ℕ)
resize xs n =
    if leb n max_size then ok (take n xs ++ replicate (n - length xs) 0) else fault length_error

-- The `n` bytes from offset `i` on.
unfoldable pub slice : List ℕ → ℕ → ℕ → Result (List ℕ)
slice xs i n = if leb (i + n) (length xs) then ok (take n (drop i xs)) else fault out_of_bounds

-- `std::copy` of `src` to offset `i`.
unfoldable pub copy_to : List ℕ → ℕ → List ℕ → Result (List ℕ)
copy_to src i xs =
    if leb (i + length src) (length xs)
    then ok (take i xs ++ (src ++ drop (i + length src) xs))
    else fault out_of_bounds

abbrev pub readable_bytes : Buffer → ℕ
readable_bytes b = sub64 b.write_index b.read_index

abbrev pub writable_bytes : Buffer → ℕ
writable_bytes b = sub64 (length b.buffer) b.write_index

abbrev pub prependable_bytes : Buffer → ℕ
prependable_bytes b = b.read_index

abbrev pub peek : Buffer → ℕ
peek b = b.read_index

abbrev pub begin_write : Buffer → ℕ
begin_write b = b.write_index

unfoldable pub init : Result Buffer
init = do
  let b : Buffer = record {
    buffer = replicate (cheap_prepared + initial_size) 0;
    read_index = cheap_prepared;
    write_index = cheap_prepared;
  }
  assert (readable_bytes b == 0)
  assert (writable_bytes b == initial_size)
  assert (prependable_bytes b == cheap_prepared)
  ok b

unfoldable pub swap : Buffer → Buffer → Buffer × Buffer
swap b rhs = (
  record b { buffer = rhs.buffer; read_index = rhs.read_index; write_index = rhs.write_index },
  record rhs { buffer = b.buffer; read_index = b.read_index; write_index = b.write_index },
)

unfoldable pub retrieve : Buffer → ℕ → Result Buffer
retrieve b len = do
  assert (leb len (readable_bytes b))
  ok (record b { read_index = add64 b.read_index len })

unfoldable pub retrieve_until : Buffer → ℕ → Result Buffer
retrieve_until b end = do
  assert (leb (peek b) end)
  assert (leb end (begin_write b))
  retrieve b (sub64 end (peek b))

unfoldable pub retrieve_all : Buffer → Buffer
retrieve_all b = record b { read_index = cheap_prepared; write_index = cheap_prepared }

unfoldable pub retrieve_as_string : Buffer → Result (List ℕ × Buffer)
retrieve_as_string b = do str ← slice b.buffer (peek b) (readable_bytes b); ok (str, retrieve_all b)

unfoldable pub has_writen : Buffer → ℕ → Buffer
has_writen b len = record b { write_index = add64 b.write_index len }

-- The first branch of `makeSpace`: the storage is enlarged.
unfoldable pub enlarge : Buffer → ℕ → Result Buffer
enlarge b len = do buf ← resize b.buffer (add64 b.write_index len); ok (record b { buffer = buf })

-- Its second branch: the readable bytes move to the front.
unfoldable pub move_down : Buffer → Result Buffer
move_down b = do
  assert (ltb cheap_prepared b.read_index)
  let readable = readable_bytes b
  bytes ← slice b.buffer b.read_index readable
  buf ← copy_to bytes cheap_prepared b.buffer
  let moved = record b {
    buffer = buf;
    read_index = cheap_prepared;
    write_index = add64 cheap_prepared readable;
  }
  assert (readable == readable_bytes moved)
  ok moved

unfoldable pub make_space : Buffer → ℕ → Result Buffer
make_space b len =
    if ltb (add64 (writable_bytes b) (prependable_bytes b)) (add64 len cheap_prepared)
    then enlarge b len
    else move_down b

unfoldable pub ensure_writable_bytes : Buffer → ℕ → Result Buffer
ensure_writable_bytes b len = do
  roomy ← if ltb (writable_bytes b) len then make_space b len else ok b
  assert (leb len (writable_bytes roomy))
  ok roomy

unfoldable pub append : Buffer → List ℕ → Result Buffer
append b str = do
  roomy ← ensure_writable_bytes b (length str)
  buf ← copy_to str (begin_write roomy) roomy.buffer
  ok (has_writen (record roomy { buffer = buf }) (length str))

unfoldable pub prepend : Buffer → List ℕ → Result Buffer
prepend b str = do
  assert (leb (length str) (prependable_bytes b))
  let start = sub64 b.read_index (length str)
  buf ← copy_to str start b.buffer
  ok (record b { buffer = buf; read_index = start })

-- The indices are left as they were.
unfoldable pub shrink : Buffer → ℕ → Result Buffer
shrink b reserve = do
  fresh ← resize [] (add64 (add64 cheap_prepared (readable_bytes b)) reserve)
  bytes ← slice b.buffer (peek b) (readable_bytes b)
  buf ← copy_to bytes cheap_prepared fresh
  ok (record b { buffer = buf })

-- What `readv` answers: an error number, or the bytes that it stores.
pub data ReadResult : Type 0 where
  read_failed : ℕ → ReadResult
  got : List ℕ → ReadResult

-- `readv` fills the writable part of the storage first and then `extraBuf`. The answer carries on
-- what `readFd` returns (-1 and the saved error, or the number of bytes).
unfoldable pub read_fd : Buffer → ReadResult → Result Buffer
read_fd b (read_failed errno) = ok b
read_fd b (got bytes) = do
  let writable = writable_bytes b
  buf ← copy_to (take writable bytes) b.write_index b.buffer
  let filled = record b { buffer = buf }
  if leb (length bytes) writable
      then ok (record filled { write_index = add64 b.write_index (length bytes) })
      else append (record filled { write_index = length buf }) (drop writable bytes)

-- `std::search` for CR LF in a range that starts at offset `i`.
unfoldable pub search_crlf : List ℕ → ℕ → Option ℕ
search_crlf [] i = none
search_crlf (x ∷ []) i = none
search_crlf (x ∷ y ∷ xs) i =
    let rest = search_crlf (y ∷ xs) (i + 1) in if x == 13 && y == 10 then some i else rest

unfoldable pub find_crlf : Buffer → Result (Option ℕ)
find_crlf b = do bytes ← slice b.buffer (peek b) (readable_bytes b); ok (search_crlf bytes (peek b))
