-- ===== src/Logging/Rotation.antt =====
-- logging.cpp: when the log file is moved, and what every logged line writes.
use tcp_net_library.Base.{ℕ, ◌≡◌, Bool, List, [], Option, ℤ, ok, arith}
use tcp_net_library.Time.{Tm}
use tcp_net_library.Logging.{Logger}
use tcp_net_library.Logging.File.{FileCall, period, rotate_file}

-- Once the file was moved, or was not yet due, no call in the same period touches it again.
pub rotate-rotate_file :
    (w w' : Logger) (es : List FileCall) (time time' : ℕ) (zone : ℤ) (t t' : Tm)
    (renamed renamed' : Bool) (opened opened' : Option ℕ)
    → rotate_file w time zone t renamed opened ≡ ok (w', es)
    → period time' zone w.rotate_interval ≡ period time zone w.rotate_interval
    → rotate_file w' time' zone t' renamed' opened' ≡ ok (w', [])
unfolding rotate_file
rotate-rotate_file w w' es time time' zone t t' renamed renamed' opened opened' h s = ground arith
