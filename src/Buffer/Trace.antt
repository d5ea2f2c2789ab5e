-- ===== src/Buffer/Trace.antt =====
-- buffer.cpp: sequences of calls on a buffer, and a plain queue of bytes beside it.
use tcp_net_library.Base.{
  ℕ, ◌+◌, ◌-◌, ◌≤◌, ◌<◌, ◌≡◌, refl, ap, List, [], ◌∷◌, ◌++◌, arith, length, replicate, drop, Result,
  ok, fault, assert_failed, ◌>>=◌, leb, if◌then◌else◌, Bool-cases, inl, inr, leb→le, leb_false→lt,
}
use tcp_net_library.Buffer.{
  Buffer, init, max_size, cheap_prepared, append, retrieve, retrieve_as_string, readable_bytes,
  retrieve_until, peek, ensure_writable_bytes, read_fd, got, read_failed,
}
use tcp_net_library.Buffer.Invariant.{IsValid, contents, length-contents, readable}
use tcp_net_library.Buffer.Append.{append_ok, read_fd_ok, read_fd_failed}
use tcp_net_library.Buffer.Space.{ensure_writable_bytes_ok}
use tcp_net_library.Buffer.Retrieve.{
  retrieve_ok, retrieve_fault, retrieve_until_ok, retrieve_until_fault, retrieve_as_string_ok,
}

pub data Op : Type 0 where
  puts : List ℕ → Op
  drops : ℕ → Op
  drops_until : ℕ → Op
  takes : Op
  makes_room : ℕ → Op
  arrives : List ℕ → Op
  fails : ℕ → Op

-- One call, with the bytes that it answers. `drops_until n` is `retrieveUntil` up to the pointer `n`
-- bytes past the first readable one, `arrives` and `fails` are `readFd`.
unfoldable pub step : Buffer → Op → Result (List ℕ × Buffer)
step b (puts xs) = append b xs >>= λ c. ok ([], c)
step b (drops n) = retrieve b n >>= λ c. ok ([], c)
step b (drops_until n) = retrieve_until b (peek b + n) >>= λ c. ok ([], c)
step b takes = retrieve_as_string b
step b (makes_room n) = ensure_writable_bytes b n >>= λ c. ok ([], c)
step b (arrives xs) = read_fd b (got xs) >>= λ c. ok ([], c)
step b (fails errno) = read_fd b (read_failed errno) >>= λ c. ok ([], c)

unfoldable pub run : Buffer → List Op → Result (List (List ℕ))
run b [] = ok []
run b (o ∷ os) = step b o >>= λ r. run r.1 os >>= λ out. ok (r.0 ∷ out)

unfoldable pub queue_step : List ℕ → Op → Result (List ℕ × List ℕ)
queue_step q (puts xs) = ok ([], q ++ xs)
queue_step q (drops n) = if leb n (length q) then ok ([], drop n q) else fault assert_failed
queue_step q (drops_until n) = if leb n (length q) then ok ([], drop n q) else fault assert_failed
queue_step q takes = ok (q, [])
queue_step q (makes_room n) = ok ([], q)
queue_step q (arrives xs) = ok ([], q ++ xs)
queue_step q (fails errno) = ok ([], q)

unfoldable pub queue_run : List ℕ → List Op → Result (List (List ℕ))
queue_run q [] = ok []
queue_run q (o ∷ os) = queue_step q o >>= λ r. queue_run r.1 os >>= λ out. ok (r.0 ∷ out)

-- The bytes that a sequence of calls may add to the storage.
unfoldable pub volume : List Op → ℕ
volume [] = 0
volume (puts xs ∷ os) = length xs + volume os
volume (drops n ∷ os) = volume os
volume (drops_until n ∷ os) = volume os
volume (takes ∷ os) = volume os
volume (makes_room n ∷ os) = n + volume os
volume (arrives xs ∷ os) = 65536 + volume os
volume (fails errno ∷ os) = volume os

-- What arrives at once is no more than the second part of `readv` holds.
abbrev pub AllArrive : List Op → Type 0
AllArrive [] = Unit {0}
AllArrive (arrives xs ∷ os) = (length xs ≤ 65536) × AllArrive os
AllArrive (puts xs ∷ os) = AllArrive os
AllArrive (drops n ∷ os) = AllArrive os
AllArrive (drops_until n ∷ os) = AllArrive os
AllArrive (takes ∷ os) = AllArrive os
AllArrive (makes_room n ∷ os) = AllArrive os
AllArrive (fails errno ∷ os) = AllArrive os

-- While the storage cannot reach the largest vector, a buffer in order answers every sequence of
-- calls as the queue of its contents does, the failed assertion of a call that drops too much included;
-- no more than 65536 bytes arrive at once.
pub run_refines :
    (os : List Op) {b : Buffer}
    → IsValid b
    → AllArrive os
    → length b.buffer + volume os + cheap_prepared ≤ max_size
    → run b os ≡ queue_run (contents b) os
unfolding run queue_run step queue_step volume
run_refines [] v a s = refl
run_refines (puts xs ∷ os) v a s =
    let (c, p, h) = append_ok xs v (omega arith) in
    rw (p, ← h.bytes, run_refines os h.valid a (omega (arith, h.bound)))
run_refines (drops n ∷ os) {b} v a s = elim (Bool-cases (leb n (length (contents b)))) [
  | inl e ↦
      let l : n ≤ readable_bytes b = omega (arith, length-contents v, leb→le _ _ e) in
      let (c, p, h) = retrieve_ok n v l in
      rw (p, e, ← h.bytes, run_refines os h.valid a (omega (arith, ap length h.storage)))
  | inr e ↦
      let l : readable_bytes b < n = omega (arith, length-contents v, leb_false→lt _ _ e) in
      rw (retrieve_fault b n l, e)
]
run_refines (takes ∷ os) v a s =
    let (c, p, h) = retrieve_as_string_ok v in
    rw (p, run_refines os h.valid a (omega (arith, ap length h.storage)), h.bytes)
run_refines (drops_until n ∷ os) {b} v a s = elim (Bool-cases (leb n (length (contents b)))) [
  | inl e ↦
      let l : n ≤ readable_bytes b = omega (arith, length-contents v, leb→le _ _ e) in
      let (c, p, h) = retrieve_until_ok (peek b + n) v (omega arith) (omega (arith, readable v)) in
      let n' : peek b + n - peek b ≡ n = omega arith in
      rw (
        p,
        e,
        ← ap (λ t. drop t (contents b)) n',
        ← h.bytes,
        run_refines os h.valid a (omega (arith, ap length h.storage)),
      )
  | inr e ↦
      let l : readable_bytes b < n = omega (arith, length-contents v, leb_false→lt _ _ e) in
      rw (retrieve_until_fault n v l, e)
]
run_refines (makes_room n ∷ os) v a s =
    let (c, p, h) = ensure_writable_bytes_ok n v (omega arith) in
    rw (p, ← h.same, run_refines os h.valid a (omega (arith, h.bound)))
run_refines (arrives xs ∷ os) v a s =
    let (c, p, h) = read_fd_ok xs v (omega (arith, a.0)) (omega arith) in
    rw (p, ← h.bytes, run_refines os h.valid a.1 (omega (arith, h.bound)))
run_refines (fails errno ∷ os) {b} v a s = rw (read_fd_failed b errno, run_refines os v a s)

-- A new buffer passes the assertions of its constructor, is in order and empty.
pub init_ok :
    (b : Buffer) × (init ≡ ok b) × IsValid b × (contents b ≡ []) × (length b.buffer ≡ 1032)
unfolding init
init_ok = (new, refl, omega arith, refl, refl)
  where
    new : Buffer
    new = record { buffer = replicate 1032 0; read_index = 8; write_index = 8 }

-- A new buffer answers every sequence of calls of `append`, `retrieve`, `retrieveUntil`,
-- `retrieveAsString`, `ensureWritableBytes` and `readFd` as an empty queue does, the failed assertion
-- of a call that drops too much included, while the bytes that they may add stay below the largest
-- vector and no more than 65536 bytes arrive at once.
pub init-run_refines :
    (os : List Op)
    → AllArrive os
    → volume os + 1040 ≤ max_size
    → (init >>= λ b. run b os) ≡ queue_run [] os
init-run_refines os a h =
    let (b, p, v, e, l) = init_ok in rw (p, run_refines os v a (omega arith), e)
