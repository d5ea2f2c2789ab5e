-- ===== src/Logging/File.antt =====
-- logging.cpp: `setFileName`, `RotateFile` and the whole of `record`. The file system's answers are
-- arguments; `none` is a call of `open` that failed, and the descriptor -1 no file.
use tcp_net_library.Base.{
  ℕ, ◌+◌, ◌-◌, ◌/◌, Bool, true, false, List, [], ◌∷◌, ◌++◌, Option, none, some, ◌==◌, if◌then◌else◌,
  ℤ, pos, negsuc, Result, ok, fault, divide_by_zero, ◌>>=◌, decimal, padded, snprintf,
}
use tcp_net_library.Http.Text.{codes}
use tcp_net_library.Time.{Tm}
use tcp_net_library.Logging.{Logger, LogLevel, concat, header, record_line, is_logged}

pub data FileCall : Type 0 where
  renames : List ℕ → List ℕ → FileCall
  opens : List ℕ → FileCall
  duplicates : ℤ → ℤ → FileCall
  closes : ℤ → FileCall
  writes : ℤ → List ℕ → FileCall

-- `timezone`, in seconds west of Greenwich, subtracted; no time is less than a zone's seconds.
abbrev pub local_time : ℕ → ℤ → ℕ
local_time time (pos west) = time - west
local_time time (negsuc east) = time + (east + 1)

-- `(time - timezone) / rotateInterval_`
abbrev pub period : ℕ → ℤ → ℕ → Result ℕ
period time zone interval =
    if interval == 0 then fault divide_by_zero else ok (local_time time zone / interval)

abbrev pub is_empty : List ℕ → Bool
is_empty [] = true
is_empty (x ∷ xs) = false

-- `"%s.%d%02d%02d%02d%02d"`, into 1024 bytes.
abbrev pub rotated_name : List ℕ → Tm → List ℕ
rotated_name file t = snprintf 1024 (
    concat (
      file
      ∷ codes "."
      ∷ decimal t.year
      ∷ padded 48 2 t.mon
      ∷ padded 48 2 t.mday
      ∷ padded 48 2 t.hour
      ∷ padded 48 2 t.min
      ∷ []))

abbrev pub reopened : Logger → Option ℕ → List FileCall
reopened w none = []
reopened w (some fd) = duplicates (pos fd) w.fd ∷ closes (pos fd) ∷ []

abbrev pub moved : Logger → Tm → Bool → Option ℕ → List FileCall
moved w t renamed opened =
    renames w.file_name (rotated_name w.file_name t)
    ∷ (if renamed then opens w.file_name ∷ reopened w opened else [])

-- `RotateFile` at `time`, which is `t` here; `renamed` says if `rename` succeeds.
unfoldable pub rotate_file : Logger → ℕ → ℤ → Tm → Bool → Option ℕ → Result (Logger × List FileCall)
rotate_file w time zone t renamed opened =
    if is_empty w.file_name
    then ok (w, [])
    else (period time zone w.rotate_interval >>= λ present.
        period w.last_rotate zone w.rotate_interval >>= λ past.
        if present == past
        then ok (w, [])
        else ok (record w { last_rotate = time }, moved w t renamed opened))

abbrev pub descriptor_of : Option ℕ → ℤ
descriptor_of none = negsuc 0
descriptor_of (some fd) = pos fd

-- The file that is open before the call keeps its descriptor.
abbrev pub take_file : Logger → ℤ → ℤ → Logger × List FileCall
take_file w fd (negsuc n) = (record w { fd = fd }, [])
take_file w fd (pos old) = (w, duplicates fd (pos old) ∷ closes fd ∷ [])

unfoldable pub set_file_name : Logger → List ℕ → Option ℕ → Logger × List FileCall
set_file_name w file_name opened =
    let w' = record w { file_name = if is_empty file_name then w.file_name else file_name } in
    let r = take_file w' (descriptor_of opened) w.fd in (r.0, opens w'.file_name ∷ r.1)

-- The descriptor that lines go to: 1 where no file is set.
abbrev pub target : ℤ → ℤ
target (negsuc n) = pos 1
target (pos fd) = pos fd

-- What `record` is told: the clock, the zone, the thread and what the file system answers.
pub record Moment : Type 0 where
  pub time : ℕ
  pub zone : ℤ
  pub date : Tm
  pub usec : ℕ
  pub tid : ℕ
  pub renamed : Bool
  pub opened : Option ℕ
  pub stale : List ℕ

unfoldable pub log_record :
    Logger → Moment → LogLevel → List ℕ → ℕ → List ℕ → Result (Logger × List FileCall)
log_record w m level file line message =
    rotate_file w m.time m.zone m.date m.renamed m.opened >>= λ r.
    record_line m.stale (header m.date m.usec m.tid level file line) message >>= λ out.
    ok (r.0, r.1 ++ writes (target r.0.fd) out ∷ [])

-- The macro `hlog`.
unfoldable pub hlog :
    Logger → Moment → LogLevel → List ℕ → ℕ → List ℕ → Result (Logger × List FileCall)
hlog w m level file line message =
    if is_logged w level then log_record w m level file line message else ok (w, [])
