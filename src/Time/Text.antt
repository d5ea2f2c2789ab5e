-- ===== src/Time/Text.antt =====
-- timeStamp.cpp: the texts of a time.
use tcp_net_library.Base.{
  ℕ, ◌+◌, ◌-◌, ◌*◌, ◌%◌, ◌<◌, ◌≤◌, ◌≡◌, ap, ◌∙◌, true, false, List, [], ◌∷◌, ◌++◌, arith, ◌==◌,
  if◌then◌else◌, padded, length, length-append, length-padded, value, pow10, take_all, take,
}
use tcp_net_library.Time.{TimeStamp, Tm, to_formatted_string, date_text}

-- The microseconds that the digits after a decimal point stand for.
abbrev pub fraction : List ℕ → ℕ
fraction ds = value 0 ds * pow10 (6 - length ds)

-- The microseconds of a decimal number of seconds.
abbrev pub read_micros : ℕ → List ℕ → ℕ
read_micros acc [] = acc * 1000000
read_micros acc (c ∷ cs) =
    if c == 46 then acc * 1000000 + fraction cs else read_micros (acc * 10 + (c - 48)) cs

-- What `gmtime_r` promises of its fields, for a year of at most four digits.
pub record IsDate (t : Tm) : Type 0 where
  pub year : t.year < 10000
  pub mon : t.mon ≤ 12
  pub mday : t.mday ≤ 31
  pub hour : t.hour ≤ 23
  pub min : t.min ≤ 59
  pub sec : t.sec ≤ 60

pub two_digits : (n : ℕ) → n < 100 → length (padded 48 2 n) ≡ 2
two_digits n h = length-padded 48 2 n (omega arith) (omega arith) (omega arith)

length-date_text : (t : Tm) → IsDate t → length (date_text t) ≡ 17
length-date_text t d = omega (
  arith,
  length-append (padded 32 4 t.year) (
      padded 48 2 t.mon
      ++ (padded 48 2 t.mday
          ++ 32 ∷ (padded 48 2 t.hour ++ 58 ∷ (padded 48 2 t.min ++ 58 ∷ padded 48 2 t.sec)))),
  length-append (padded 48 2 t.mon) (
      padded 48 2 t.mday
      ++ 32 ∷ (padded 48 2 t.hour ++ 58 ∷ (padded 48 2 t.min ++ 58 ∷ padded 48 2 t.sec))),
  length-append (padded 48 2 t.mday)
      (32 ∷ (padded 48 2 t.hour ++ 58 ∷ (padded 48 2 t.min ++ 58 ∷ padded 48 2 t.sec))),
  length-append (padded 48 2 t.hour) (58 ∷ (padded 48 2 t.min ++ 58 ∷ padded 48 2 t.sec)),
  length-append (padded 48 2 t.min) (58 ∷ padded 48 2 t.sec),
  length-padded 32 4 t.year d.year (omega arith) (omega arith),
  two_digits t.mon (omega (arith, d.mon)),
  two_digits t.mday (omega (arith, d.mday)),
  two_digits t.hour (omega (arith, d.hour)),
  two_digits t.min (omega (arith, d.min)),
  two_digits t.sec (omega (arith, d.sec)),
)

-- A date of a year of at most four digits is printed in 17 characters, or in 24 with its
-- microseconds, and neither text is cut.
to_formatted_string_ok :
    (t : TimeStamp) (d : Tm)
    → IsDate d
    → (to_formatted_string t d false ≡ date_text d)
      × (to_formatted_string t d true
          ≡ date_text d ++ 46 ∷ padded 48 6 (t.micro_seconds_since_epoch % 1000000))
      × (length (to_formatted_string t d false) ≡ 17)
      × (length (to_formatted_string t d true) ≡ 24)
unfolding to_formatted_string
to_formatted_string_ok t d v =
    let m = t.micro_seconds_since_epoch % 1000000 in
    let long : length (date_text d ++ 46 ∷ padded 48 6 m) ≡ 24 = omega (
      arith,
      length-date_text d v,
      length-append (date_text d) (46 ∷ padded 48 6 m),
      length-padded 48 6 m (omega arith) (omega arith) (omega arith),
    ) in
    let a : take 31 (date_text d) ≡ date_text d =
      take_all 31 _ (omega (arith, length-date_text d v)) in
    let b : take 31 (date_text d ++ 46 ∷ padded 48 6 m) ≡ date_text d ++ 46 ∷ padded 48 6 m =
      take_all 31 _ (omega (arith, long)) in
    (a, b, ap length a ∙ length-date_text d v, ap length b ∙ long)
