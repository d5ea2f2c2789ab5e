-- ===== src/Time/Delay.antt =====
-- timerQueue.cpp: the delay that `resetTimerfd` arms the timer with.
use tcp_net_library.Base.{◌+◌, ◌-◌, ◌*◌, ◌<◌, ◌≡◌, max, arith}
use tcp_net_library.Time.{TimeStamp, how_much_time_from_now}

-- The delay is a valid `timespec`, with less than a second of nanoseconds. It is the time left in
-- microseconds, or 100 of them where less or nothing is left, so it never is the zero that
-- disarms the timer.
pub how_much_time_from_now_ok :
    (when present : TimeStamp)
    → let ts = how_much_time_from_now when present in
      (ts.tv_nsec < 1000000000)
      × (ts.tv_sec * 1000000000 + ts.tv_nsec
          ≡ max 100 (when.micro_seconds_since_epoch - present.micro_seconds_since_epoch) * 1000)
      × (0 < ts.tv_sec + ts.tv_nsec)
unfolding how_much_time_from_now
how_much_time_from_now_ok when present = ground arith
