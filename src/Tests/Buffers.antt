-- ===== src/Tests/Buffers.antt =====
-- The buffer's theorems at small buffers.
use tcp_net_library.Base.{◌+◌, ◌≤◌, ◌≡◌, ◌↔◌, List, [], ◌∷◌, ◌++◌, arith, replicate, ok, ◌>>=◌}
use tcp_net_library.Buffer.{Buffer, init, cheap_prepared, shrink}
use tcp_net_library.Buffer.Invariant.{IsValid}
use tcp_net_library.Buffer.Shrink.{shrink-IsValid_iff}
use tcp_net_library.Buffer.Trace.{
  Op, puts, drops, drops_until, takes, makes_room, arrives, fails, volume, run, queue_run,
  init-run_refines,
}

-- "a CR LF b" behind the reserved bytes, two more places
abbrev small : Buffer
small = record {
  buffer = replicate 8 0 ++ 97 ∷ 13 ∷ 10 ∷ 98 ∷ 0 ∷ 0 ∷ [];
  read_index = 8;
  write_index = 12;
}

-- "LF b" after two bytes have gone
abbrev moved : Buffer
moved = record small { read_index = 10 }

moved-IsValid : IsValid moved
moved-IsValid = omega arith

abbrev script : List Op
script =
    puts (1 ∷ 2 ∷ 3 ∷ [])
    ∷ drops 2
    ∷ arrives (4 ∷ 5 ∷ 6 ∷ 7 ∷ [])
    ∷ makes_room 2000
    ∷ drops_until 1
    ∷ fails 11
    ∷ takes
    ∷ drops 1
    ∷ []

init-run_refines_example : (init >>= λ b. run b script) ≡ queue_run [] script
unfolding volume
init-run_refines_example = init-run_refines script (omega arith, tt) (omega arith)

shrink-IsValid_iff_example :
    (c : Buffer) × (shrink moved 1 ≡ ok c) × (IsValid c ↔ (moved.read_index ≤ cheap_prepared + 1))
shrink-IsValid_iff_example = shrink-IsValid_iff 1 moved-IsValid (omega arith)
