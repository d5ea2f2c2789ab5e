-- ===== src/Reactor/LoopThread/Quit.antt =====
-- eventLoopThread.cpp: the destructor against `loop`.
use tcp_net_library.Base.{ℕ, ◌+◌, ◌≤◌, ◌≡◌, ◌≢◌, ◌⊎◌, inl, inr, refl, Bool, true, false, arith}
use tcp_net_library.Reactor.LoopThread.{
  constructed, joining, Child, testing, polling, ended, nobody, Threads, init, Step, starts,
  owner_locks, waits, wakes_up, locks_again, returns, child_locks, publishes, enters, polls,
  handles, ends, quits, writes, joins, Steps, here, later,
}

-- The owner waits for a thread that was not told to quit.
record IsStuck (s : Threads) : Type 0 where
  owner : s.owner ≡ joining
  quit : s.quit ≡ false
  child : (s.child ≡ testing) ⊎ (s.child ≡ polling)

step-IsStuck : {s t : Threads} → Step s t → IsStuck s → IsStuck t
step-IsStuck (starts h) v = ground arith
step-IsStuck (owner_locks h m) v = ground arith
step-IsStuck (waits h p) v = ground arith
step-IsStuck (wakes_up h) v = ground arith
step-IsStuck (locks_again h m) v = ground arith
step-IsStuck (returns h p) v = ground arith
step-IsStuck (child_locks h m) v = ground arith
step-IsStuck (publishes h) v = ground arith
step-IsStuck (enters h) v = ground arith
step-IsStuck (polls h q) v = ground arith
step-IsStuck (handles h) v = ground arith
step-IsStuck (ends h q) v = ground arith
step-IsStuck (quits h) v = ground arith
step-IsStuck (writes h) v = ground arith
step-IsStuck (joins h e) v = ground arith

steps-IsStuck : {s t : Threads} → Steps s t → IsStuck s → IsStuck t
steps-IsStuck here v = v
steps-IsStuck (later ss h) v = step-IsStuck h (steps-IsStuck ss v)

-- The owner gets the pointer and is destroyed before the started thread enters `loop`, which clears
-- the flag that `quit` has set.
abbrev pub overtaken : Threads
overtaken = record {
  owner = joining;
  child = testing;
  mtx = nobody;
  has_pointer = true;
  quit = false;
  wakes = 1;
}

overtaken_steps : (flag : Bool) → Steps (init flag) overtaken
overtaken_steps flag =
    later
      (later
        (later
          (later
            (later
              (later (later (later here (starts refl)) (child_locks refl refl)) (publishes refl))
              (owner_locks refl refl))
            (returns refl refl))
          (quits refl))
        (writes refl))
      (enters refl)

overtaken-IsStuck : IsStuck overtaken
overtaken-IsStuck = ground arith

-- The destructor may be overtaken by the start of `loop`, whatever the flag was before. From there on
-- no run ends the wait of the destructor: the flag stays cleared, and the thread is never joined.
pub quit_overtaken :
    (flag : Bool) (t : Threads)
    → Steps overtaken t
    → Steps (init flag) overtaken × (t.quit ≡ false) × (t.owner ≡ joining) × (t.child ≢ ended)
quit_overtaken flag t ss =
    let v = steps-IsStuck ss overtaken-IsStuck in
    (overtaken_steps flag, v.quit, v.owner, ground arith)

-- The thread is in `loop`, and was told to quit since it entered.
pub record IsTold (s : Threads) : Type 0 where
  pub begun : s.owner ≢ constructed
  pub quit : s.quit ≡ true
  pub child : (s.child ≡ testing) ⊎ (s.child ≡ polling) ⊎ (s.child ≡ ended)

abbrev rank : Child → ℕ
rank polling = 2
rank testing = 1
rank _ = 0

-- The steps that the started thread makes.
abbrev pub child_turn : {s t : Threads} → Step s t → ℕ
child_turn (child_locks h m) = 1
child_turn (publishes h) = 1
child_turn (enters h) = 1
child_turn (polls h q) = 1
child_turn (handles h) = 1
child_turn (ends h q) = 1
child_turn _ = 0

abbrev pub child_turns : {s t : Threads} → Steps s t → ℕ
child_turns here = 0
child_turns (later ss h) = child_turns ss + child_turn h

step-IsTold :
    {s t : Threads} (h : Step s t)
    → IsTold s
    → IsTold t × (child_turn h + rank t.child ≤ rank s.child)
step-IsTold (starts h) v = ground arith
step-IsTold (owner_locks h m) v = ground arith
step-IsTold (waits h p) v = ground arith
step-IsTold (wakes_up h) v = ground arith
step-IsTold (locks_again h m) v = ground arith
step-IsTold (returns h p) v = ground arith
step-IsTold (child_locks h m) v = ground arith
step-IsTold (publishes h) v = ground arith
step-IsTold (enters h) v = ground arith
step-IsTold (polls h q) v = ground arith
step-IsTold (handles h) v = ground arith
step-IsTold (ends h q) v = ground arith
step-IsTold (quits h) v = ground arith
step-IsTold (writes h) v = ground arith
step-IsTold (joins h e) v = ground arith

steps-IsTold :
    {s t : Threads} (ss : Steps s t)
    → IsTold s
    → IsTold t × (child_turns ss + rank t.child ≤ rank s.child)
steps-IsTold here v = (v, omega arith)
steps-IsTold (later ss h) v =
    let (w, l) = steps-IsTold ss v in let (x, m) = step-IsTold h w in (x, omega arith)

rank_le : (c : Child) → rank c ≤ 2
rank_le c = ground arith

-- A thread that is told to quit while it is in `loop` ends: in every run from there it makes at most
-- two more steps, and wherever it stands it can still end.
pub quit_ends :
    {s t : Threads} (ss : Steps s t)
    → IsTold s
    → (child_turns ss ≤ 2) × ((u : Threads) × Steps t u × (u.child ≡ ended))
quit_ends {s} {t} ss v =
    let (w, l) = steps-IsTold ss v in (omega (arith, rank_le s.child), ending t w.quit w.child)
  where
    ending :
        (t : Threads)
        → t.quit ≡ true
        → (t.child ≡ testing) ⊎ (t.child ≡ polling) ⊎ (t.child ≡ ended)
        → (u : Threads) × Steps t u × (u.child ≡ ended)
    ending t q (inl c) = (record t { child = ended }, later here (ends c q), refl)
    ending t q (inr (inl c)) =
        (record t { child = ended; wakes = 0 }, later (later here (handles c)) (ends refl q), refl)
    ending t q (inr (inr c)) = (t, here, c)
