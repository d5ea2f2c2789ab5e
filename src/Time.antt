-- ===== src/Time.antt =====
-- timeStamp.h and timeStamp.cpp, and the delay of a timer of timerQueue.cpp.
-- A time is a number of microseconds since the epoch; it is not negative, and below 2^63.
pub mod Text
pub mod Delay
use tcp_net_library.Base.{
  ℕ, ◌+◌, ◌-◌, ◌*◌, ◌/◌, ◌%◌, Bool, List, [], ◌∷◌, ◌++◌, ltb, ◌==◌, if◌then◌else◌, decimal, padded,
  snprintf,
}

abbrev pub micro_seconds_per_second : ℕ
micro_seconds_per_second = 1000 * 1000

pub record TimeStamp : Type 0 where
  pub micro_seconds_since_epoch : ℕ

abbrev pub at_micro_seconds : ℕ → TimeStamp
at_micro_seconds n = record { micro_seconds_since_epoch = n }

-- `TimeStamp()` and `TimeStamp::invaild()`
abbrev pub invaild : TimeStamp
invaild = at_micro_seconds 0

-- What `gettimeofday` answers is an argument.
abbrev pub now : ℕ → ℕ → TimeStamp
now tv_sec tv_usec = at_micro_seconds (tv_sec * micro_seconds_per_second + tv_usec)

abbrev pub valid : TimeStamp → Bool
valid t = ltb 0 t.micro_seconds_since_epoch

-- `operator <` and `operator ==`
abbrev pub before : TimeStamp → TimeStamp → Bool
before lhs rhs = ltb lhs.micro_seconds_since_epoch rhs.micro_seconds_since_epoch

abbrev pub same_time : TimeStamp → TimeStamp → Bool
same_time lhs rhs = lhs.micro_seconds_since_epoch == rhs.micro_seconds_since_epoch

-- `addTime`; the number of microseconds is that of the product of doubles.
abbrev pub add_time : TimeStamp → ℕ → TimeStamp
add_time t delta = at_micro_seconds (t.micro_seconds_since_epoch + delta)

-- `"%" PRId64 ".%06" PRId64`, into 31 of 32 bytes.
unfoldable pub to_string : TimeStamp → List ℕ
to_string t =
    let seconds = t.micro_seconds_since_epoch / micro_seconds_per_second in
    let microseconds = t.micro_seconds_since_epoch % micro_seconds_per_second in
    snprintf (32 - 1) (decimal seconds ++ 46 ∷ padded 48 6 microseconds)

-- `struct tm`, with the year and the month as they are printed.
pub record Tm : Type 0 where
  pub year : ℕ
  pub mon : ℕ
  pub mday : ℕ
  pub hour : ℕ
  pub min : ℕ
  pub sec : ℕ

-- `"%4d%02d%02d %02d:%02d:%02d"`
abbrev pub date_text : Tm → List ℕ
date_text t =
    padded 32 4 t.year
    ++ (padded 48 2 t.mon
        ++ (padded 48 2 t.mday
            ++ 32 ∷ (padded 48 2 t.hour ++ 58 ∷ (padded 48 2 t.min ++ 58 ∷ padded 48 2 t.sec))))

-- What `gmtime_r` answers is an argument.
unfoldable pub to_formatted_string : TimeStamp → Tm → Bool → List ℕ
to_formatted_string t tm_time show_microseconds =
    if show_microseconds
    then snprintf 32 (
        date_text tm_time
        ++ 46 ∷ padded 48 6 (t.micro_seconds_since_epoch % micro_seconds_per_second))
    else snprintf 32 (date_text tm_time)

pub record TimeSpec : Type 0 where
  pub tv_sec : ℕ
  pub tv_nsec : ℕ

-- `howMuchTimeFromNow`; the difference may be negative in the source, and is then below 100.
unfoldable pub how_much_time_from_now : TimeStamp → TimeStamp → TimeSpec
how_much_time_from_now when present =
    let early = ltb when.micro_seconds_since_epoch (present.micro_seconds_since_epoch + 100) in
    let microseconds =
      if early then 100 else when.micro_seconds_since_epoch - present.micro_seconds_since_epoch in
    record {
      tv_sec = microseconds / micro_seconds_per_second;
      tv_nsec = (microseconds % micro_seconds_per_second) * 1000;
    }
