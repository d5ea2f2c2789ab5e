-- ===== src/Logging.antt =====
-- logging.h and logging.cpp: the level, the line that `record` writes, and the log file.
-- A line is built in an array of 1024 bytes; a pointer into it is an offset. The clock, the thread id
-- and what the calls of the file system answer are arguments, and the calls made are effects.
pub mod Search
pub mod Line
pub mod File
pub mod Rotation
pub mod Header
use tcp_net_library.Base.{
  ℕ, zero, suc, ◌+◌, ◌-◌, ◌*◌, ◌/◌, ◌%◌, min, Bool, true, false, not, ◌&&◌, ◌||◌, List, [], ◌∷◌,
  ◌++◌, Option, none, some, length, take, drop, replicate, get_elem?, ltb, leb, ◌==◌, if◌then◌else◌,
  ℤ, pos, negsuc, Result, ok, fault, assert, out_of_bounds, ◌>>=◌, ◌>>◌, decimal, padded, snprintf,
}
use tcp_net_library.Http.Text.{codes}
use tcp_net_library.Buffer.{copy_to}
use tcp_net_library.Time.{Tm}

pub data LogLevel : Type 0 where
  trace debug info warn error fatal all : LogLevel

abbrev pub level_value : LogLevel → ℕ
level_value trace = 0
level_value debug = 1
level_value info = 2
level_value warn = 3
level_value error = 4
level_value fatal = 5
level_value all = 6

-- The text of `WARN` is spelled as in the source.
abbrev pub level_str : LogLevel → List ℕ
level_str trace = codes "TRACE"
level_str debug = codes "DEBUG"
level_str info = codes "INFO"
level_str warn = codes "WRAN"
level_str error = codes "ERROR"
level_str fatal = codes "FATAL"
level_str all = codes "ALL"

pub record Logger : Type 0 where
  pub level : LogLevel
  pub fd : ℤ
  pub rotate_interval : ℕ
  pub last_rotate : ℕ
  pub file_name : List ℕ

abbrev pub new_logger : ℕ → Logger
new_logger time = record {
  level = trace;
  fd = negsuc 0;
  rotate_interval = 86400;
  last_rotate = time;
  file_name = [];
}

-- `std::min(level, ALL)`; no level is above `ALL`.
abbrev pub set_log_level : Logger → LogLevel → Logger
set_log_level w level = record w { level = level }

abbrev pub set_rotate_interval : Logger → ℕ → Logger
set_rotate_interval w interval = record w { rotate_interval = interval }

-- The test of the macro `hlog`.
abbrev pub is_logged : Logger → LogLevel → Bool
is_logged w level = leb (level_value w.level) (level_value level)

-- `%lx`; sixteen digits hold every 64-bit word.
abbrev pub hex_digit : ℕ → ℕ
hex_digit d = if ltb d 10 then 48 + d else 87 + d

unfoldable pub hex_from : ℕ → ℕ → List ℕ → List ℕ
hex_from zero n acc = acc
hex_from (suc f) n acc =
    let more = hex_from f (n / 16) (hex_digit (n % 16) ∷ acc) in
    if ltb n 16 then hex_digit n ∷ acc else more

abbrev pub concat : List (List ℕ) → List ℕ
concat [] = []
concat (xs ∷ xss) = xs ++ concat xss

-- The start of a line: the date, the time, the thread, the level and the place in the source.
abbrev pub start_pieces : Tm → ℕ → ℕ → LogLevel → List ℕ → ℕ → List (List ℕ)
start_pieces t usec tid level file line =
    padded 48 4 t.year
    ∷ codes "/"
    ∷ padded 48 2 t.mon
    ∷ codes "/"
    ∷ padded 48 2 t.mday
    ∷ codes "-"
    ∷ padded 48 2 t.hour
    ∷ codes ":"
    ∷ padded 48 2 t.min
    ∷ codes ":"
    ∷ padded 48 2 t.sec
    ∷ codes ":"
    ∷ padded 48 6 usec
    ∷ codes " "
    ∷ hex_from 16 tid []
    ∷ codes " "
    ∷ level_str level
    ∷ codes " "
    ∷ file
    ∷ codes ":"
    ∷ decimal line
    ∷ codes "  "
    ∷ []

unfoldable pub header : Tm → ℕ → ℕ → LogLevel → List ℕ → ℕ → List ℕ
header t usec tid level file line = concat (start_pieces t usec tid level file line)

-- `sizeof(buf)`
abbrev pub buf_size : ℕ
buf_size = 1024

-- `snprintf(pb, pe - pb, ...)`; an offset past the end makes the size wrap.
unfoldable pub print_at : List ℕ → ℕ → List ℕ → Result (List ℕ)
print_at buf pb text =
    if ltb buf_size pb
    then fault out_of_bounds
    else if pb == buf_size
    then ok buf
    else copy_to (snprintf (buf_size - pb) text ++ 0 ∷ []) pb buf

-- The byte at `pb` stops the search, unless it is a newline.
abbrev pub stop_at : Option ℕ → ℕ → Result ℕ → Result ℕ
stop_at none pb rest = fault out_of_bounds
stop_at (some c) pb rest = if c == 10 then rest else ok pb

-- `while(*--pb == '\n')`
unfoldable pub back_up : List ℕ → ℕ → Result ℕ
back_up buf zero = fault out_of_bounds
back_up buf (suc pb) = stop_at (get_elem? buf pb) pb (back_up buf pb)

-- The bytes that `record` writes; `stale` is what the array holds at first.
unfoldable pub record_line : List ℕ → List ℕ → List ℕ → Result (List ℕ)
record_line stale head message = do
  b1 ← print_at stale 0 head
  b2 ← print_at b1 (length head) message
  pb ← back_up b2 (min (length head + length message) (buf_size - 2))
  b3 ← copy_to (10 ∷ []) (pb + 1) b2
  b4 ← copy_to (0 ∷ []) (pb + 2) b3
  ok (take (pb + 2) b4)
