-- ===== src/Tests/Texts.antt =====
-- The theorems on times, log lines and addresses.
use tcp_net_library.Base.{
  ℕ, ◌+◌, ◌*◌, ◌-◌, ◌≤◌, ◌<◌, ◌≡◌, refl, true, false, List, [], ◌∷◌, ◌++◌, arith, none, some, ok,
  pos, negsuc, length, take, replicate, max,
}
use tcp_net_library.Http.Text.{codes}
use tcp_net_library.Time.{Tm, at_micro_seconds, how_much_time_from_now}
use tcp_net_library.Time.Delay.{how_much_time_from_now_ok}
use tcp_net_library.Time.Text.{IsDate}
use tcp_net_library.Logging.{Logger, info, new_logger}
use tcp_net_library.Logging.Line.{IsLine}
use tcp_net_library.Logging.File.{writes, Moment, rotate_file, hlog, moved}
use tcp_net_library.Logging.Rotation.{rotate-rotate_file}
use tcp_net_library.Logging.Header.{IsSmall, full_text, hlog-IsLine}

-- The timer is due already.
how_much_time_from_now_ok_example :
    let ts = how_much_time_from_now (at_micro_seconds 500) (at_micro_seconds 900) in
    (ts.tv_nsec < 1000000000)
    × (ts.tv_sec * 1000000000 + ts.tv_nsec ≡ max 100 (500 - 900) * 1000)
    × (0 < ts.tv_sec + ts.tv_nsec)
how_much_time_from_now_ok_example =
    how_much_time_from_now_ok (at_micro_seconds 500) (at_micro_seconds 900)

abbrev date : Tm
date = record { year = 2017; mon = 7; mday = 13; hour = 9; min = 5; sec = 3 }

date-IsDate : IsDate date
date-IsDate = record {
  year = omega arith;
  mon = omega arith;
  mday = omega arith;
  hour = omega arith;
  min = omega arith;
  sec = omega arith;
}

abbrev moment : Moment
moment = record {
  time = 100000;
  zone = negsuc 28799;
  date = date;
  usec = 7;
  tid = 4711;
  renamed = true;
  opened = some 6;
  stale = replicate 1024 0;
}

-- A logger whose file was last moved on the day before.
abbrev daily : Logger
daily = record (new_logger 3) { fd = pos 5; file_name = codes "log" }

moment-IsSmall : IsSmall moment (codes "main.cpp") 42
moment-IsSmall = record {
  date = date-IsDate;
  usec = omega arith;
  below = omega arith;
  named = omega arith;
  stale = refl;
}

abbrev after : Logger
after = record daily { last_rotate = 100000 }

rotated :
    rotate_file daily 100000 (negsuc 28799) date true (some 6)
    ≡ ok (after, moved daily date true (some 6))
unfolding rotate_file
rotated = refl

hlog-IsLine_example :
    (out : List ℕ) × (hlog daily moment info (codes "main.cpp") 42 (codes "started")
      ≡ ok (after, moved daily date true (some 6) ++ writes (pos 5) out ∷ []))
    × IsLine (take 1022 (full_text moment info (codes "main.cpp") 42 (codes "started"))) out
    × (length out ≤ 1023)
hlog-IsLine_example =
    hlog-IsLine daily after (moved daily date true (some 6)) moment info (codes "main.cpp") 42
      (codes "started") moment-IsSmall refl rotated

rotate-rotate_file_example :
    rotate_file after 110000 (negsuc 28799) date false none ≡ ok (after, [])
rotate-rotate_file_example =
    rotate-rotate_file daily after (moved daily date true (some 6)) 100000 110000 (negsuc 28799)
      date date true false (some 6) none rotated refl
