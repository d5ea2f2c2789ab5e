-- ===== src/Logging/Header.antt =====
-- logging.cpp: `record` with the start of its line.
use tcp_net_library.Base.{
  ℕ, zero, suc, ◌+◌, ◌/◌, ◌%◌, ◌≡◌, ◌≤◌, ◌<◌, refl, true, List, [], ◌∷◌, ◌++◌, some, ok, arith,
  length, take, get_elem?, length-append, length-padded, length-decimal, padded,
}
use tcp_net_library.Time.Text.{IsDate, two_digits}
use tcp_net_library.Logging.{
  Logger, LogLevel, trace, debug, info, warn, error, fatal, all, concat, hex_from, hex_digit,
  start_pieces, header, level_str, is_logged,
}
use tcp_net_library.Logging.Line.{IsLine, record_line-IsLine}
use tcp_net_library.Logging.File.{FileCall, writes, Moment, rotate_file, log_record, hlog, target}

-- The sizes that keep the start of a line inside the array.
pub record IsSmall (m : Moment) (file : List ℕ) (number : ℕ) : Type 0 where
  pub date : IsDate m.date
  pub usec : m.usec < 1000000
  pub below : number < 10000000000
  pub named : length file ≤ 900
  pub stale : length m.stale ≡ 1024

abbrev total : List (List ℕ) → ℕ
total [] = 0
total (xs ∷ xss) = length xs + total xss

length-concat : (xss : List (List ℕ)) → length (concat xss) ≡ total xss
length-concat [] = refl
length-concat (xs ∷ xss) = omega (arith, length-append xs (concat xss), length-concat xss)

length-hex_from : (f n : ℕ) (out : List ℕ) → length (hex_from f n out) ≤ f + length out
unfolding hex_from
length-hex_from zero n out = omega arith
length-hex_from (suc f) n out =
    ground (arith, length-hex_from f (n / 16) (hex_digit (n % 16) ∷ out))

length-level_str : (level : LogLevel) → length (level_str level) ≤ 5
length-level_str trace = omega arith
length-level_str debug = omega arith
length-level_str info = omega arith
length-level_str warn = omega arith
length-level_str error = omega arith
length-level_str fatal = omega arith
length-level_str all = omega arith

length-header :
    (m : Moment) (level : LogLevel) (file : List ℕ) (line : ℕ)
    → IsSmall m file line
    → length (header m.date m.usec m.tid level file line) ≤ 1022
unfolding header
length-header m level file line s = omega (
  arith,
  length-concat (start_pieces m.date m.usec m.tid level file line),
  length-padded 48 4 m.date.year s.date.year (omega arith) (omega arith),
  two_digits m.date.mon (omega (arith, s.date.mon)),
  two_digits m.date.mday (omega (arith, s.date.mday)),
  two_digits m.date.hour (omega (arith, s.date.hour)),
  two_digits m.date.min (omega (arith, s.date.min)),
  two_digits m.date.sec (omega (arith, s.date.sec)),
  length-padded 48 6 m.usec s.usec (omega arith) (omega arith),
  length-hex_from 16 m.tid [],
  length-level_str level,
  s.named,
  length-decimal 10 line s.below (omega arith) (omega arith),
)

get_elem?-middle : (xs ys : List ℕ) (c : ℕ) → get_elem? (xs ++ c ∷ ys) (length xs) ≡ some c
get_elem?-middle [] ys c = refl
get_elem?-middle (x ∷ xs) ys c = get_elem?-middle xs ys c

slash :
    (m : Moment) (level : LogLevel) (file : List ℕ) (line : ℕ)
    → get_elem? (header m.date m.usec m.tid level file line) (length (padded 48 4 m.date.year))
      ≡ some 47
unfolding header
slash m level file line = get_elem?-middle (padded 48 4 m.date.year) _ 47

-- The text of a line before it is cut.
abbrev pub full_text : Moment → LogLevel → List ℕ → ℕ → List ℕ → List ℕ
full_text m level file line message = header m.date m.usec m.tid level file line ++ message

-- A message of at least the logger's level, from a file with a name of at most 900 bytes, is one write,
-- after the calls that move the log file where it is due: one line of at most 1023 bytes, to the log
-- file, or to the standard output where there is none. The line is the date, the place and the message,
-- cut after 1022 bytes, without the newlines at their end, and one newline.
pub hlog-IsLine :
    (w w' : Logger) (es : List FileCall) (m : Moment) (level : LogLevel) (file : List ℕ) (line : ℕ)
    (message : List ℕ)
    → IsSmall m file line
    → is_logged w level ≡ true
    → rotate_file w m.time m.zone m.date m.renamed m.opened ≡ ok (w', es)
    → (out : List ℕ) × (hlog w m level file line message
        ≡ ok (w', es ++ writes (target w'.fd) out ∷ []))
      × IsLine (take 1022 (full_text m level file line message)) out
      × (length out ≤ 1023)
unfolding hlog log_record
hlog-IsLine w w' es m level file line message s b r =
    let (out, e, i, l) =
      record_line-IsLine m.stale (header m.date m.usec m.tid level file line) message _ 47 s.stale
        (length-header m level file line s) (slash m level file line) (λ q. absurd (omega arith)) in
    (out, rw (b, r, e), i, l)
