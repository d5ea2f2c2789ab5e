-- ===== src/Buffer/Append.antt =====
-- buffer.cpp: `append`, `readFd` and `prepend`.
use tcp_net_library.Base.{
  ℕ, ◌+◌, ◌-◌, ◌≤◌, ◌<◌, ◌≡◌, refl, ap, sym, ◌∙◌, List, ◌++◌, append_assoc, arith, inl, inr, length,
  take, drop, length-take, length-drop, take-append-drop, take_all, ok, fault, assert_failed,
  Bool-cases, leb, le→leb, leb→le, leb_false→lt, lt→leb_false, add64, sub64, false,
}
use tcp_net_library.Buffer.{
  Buffer, max_size, cheap_prepared, writable_bytes, prependable_bytes, append, prepend, read_fd,
  read_failed, got, has_writen,
}
use tcp_net_library.Buffer.Memory.{
  window, written, copy_to_ok, length-written, window-written_behind, window-written_before,
}
use tcp_net_library.Buffer.Invariant.{IsValid, contents}
use tcp_net_library.Buffer.Space.{ensure_writable_bytes_ok}

-- `c` is in order, holds `xs`, and its storage has grown by `extra` bytes at most.
pub record Holds (b : Buffer) (xs : List ℕ) (extra : ℕ) (c : Buffer) : Type 0 where
  pub valid : IsValid c
  pub bytes : contents c ≡ xs
  pub bound : length c.buffer ≤ length b.buffer + extra

-- `b` with bytes written behind its contents.
abbrev filled : Buffer → List ℕ → Buffer
filled b str = record b {
  buffer = written str b.write_index b.buffer;
  write_index = b.write_index + length str;
}

filled-Holds :
    {b : Buffer} (str : List ℕ)
    → IsValid b
    → b.write_index + length str ≤ length b.buffer
    → Holds b (contents b ++ str) 0 (filled b str)
filled-Holds {b} str v h =
    let n : length (filled b str).buffer ≡ length b.buffer =
      length-written str b.write_index b.buffer h in
    record {
      valid = record {
        order = omega arith;
        fits = omega arith;
        front = omega arith;
        small = omega arith;
      };
      bytes =
          ap (window (filled b str).buffer b.read_index) (omega arith)
          ∙ window-written_behind str b.buffer b.read_index b.write_index v.order h;
      bound = omega arith;
    }

-- While the sizes stay below the largest vector, `append` succeeds, puts the bytes behind the
-- contents, keeps the indices in order, and enlarges the storage by the bytes' number at most.
pub append_ok :
    {b : Buffer} (str : List ℕ)
    → IsValid b
    → length b.buffer + length str + cheap_prepared ≤ max_size
    → (c : Buffer) × (append b str ≡ ok c) × Holds b (contents b ++ str) (length str) c
unfolding append has_writen
append_ok {b} str v s =
    let (r, p, rm) = ensure_writable_bytes_ok (length str) v s in
    let h = filled-Holds str rm.valid rm.room in
    let w : add64 r.write_index (length str) ≡ r.write_index + length str =
      omega (arith, rm.room, rm.valid.small) in
    (
      filled r str,
      rw (p, copy_to_ok str r.write_index r.buffer rm.room, w),
      record {
        valid = h.valid;
        bytes = h.bytes ∙ ap (λ t. t ++ str) rm.same;
        bound = omega (arith, h.bound, rm.bound);
      },
    )

-- Where the bytes do not fit, the rest of them is appended to the storage filled to its end.
read_fd_spill :
    {b : Buffer} (bytes : List ℕ)
    → IsValid b
    → leb (length bytes) (writable_bytes b) ≡ false
    → b.write_index + length (take (writable_bytes b) bytes) ≡ length b.buffer
    → (c : Buffer)
    → append (filled b (take (writable_bytes b) bytes)) (drop (writable_bytes b) bytes) ≡ ok c
    → read_fd b (got bytes) ≡ ok c
unfolding read_fd
read_fd_spill {b} bytes v e full c p =
    let front : List ℕ = take (writable_bytes b) bytes in
    let g : b.write_index + length front ≤ length b.buffer = omega arith in
    let n : length (written front b.write_index b.buffer) ≡ b.write_index + length front =
      length-written front b.write_index b.buffer g ∙ sym full in
    rw (e, copy_to_ok front b.write_index b.buffer g, n) p

-- `readFd`, where `readv` stores at most what its two parts hold: all bytes that arrived stand behind
-- the contents, whether they fit the writable part or go through the second, of 65536 bytes.
pub read_fd_ok :
    {b : Buffer} (bytes : List ℕ)
    → IsValid b
    → length bytes ≤ writable_bytes b + 65536
    → length b.buffer + 65536 + cheap_prepared ≤ max_size
    → (c : Buffer) × (read_fd b (got bytes) ≡ ok c) × Holds b (contents b ++ bytes) 65536 c
unfolding read_fd
read_fd_ok {b} bytes v h s = elim (Bool-cases (leb (length bytes) (writable_bytes b))) [
  | inl e ↦
      let g : b.write_index + length bytes ≤ length b.buffer = omega (arith, leb→le _ _ e) in
      let t = take_all (writable_bytes b) bytes (leb→le _ _ e) in
      let k = filled-Holds bytes v g in
      let sum : add64 b.write_index (length bytes) ≡ b.write_index + length bytes = omega arith in
      (
        filled b bytes,
        rw (e, t, copy_to_ok bytes b.write_index b.buffer g, sum),
        record { valid = k.valid; bytes = k.bytes; bound = omega (arith, k.bound) },
      )
  | inr e ↦
      let front = take (writable_bytes b) bytes in
      let rest = drop (writable_bytes b) bytes in
      let n : b.write_index + length front ≡ length b.buffer =
        omega (arith, length-take (writable_bytes b) bytes, leb_false→lt _ _ e) in
      let k = filled-Holds front v (omega arith) in
      let l = length-drop (writable_bytes b) bytes in
      let (c, p, r) = append_ok rest k.valid (omega (arith, k.bound, l)) in
      (
        c,
        read_fd_spill bytes v e n c p,
        record {
          valid = r.valid;
          bytes =
              r.bytes
              ∙ ap (λ t. t ++ rest) k.bytes
              ∙ append_assoc (contents b) front rest
              ∙ ap (◌++◌ (contents b)) (take-append-drop (writable_bytes b) bytes);
          bound = omega (arith, r.bound, k.bound, l);
        },
      )
]

-- A failed read leaves the buffer as it was.
pub read_fd_failed : (b : Buffer) (errno : ℕ) → read_fd b (read_failed errno) ≡ ok b
unfolding read_fd
read_fd_failed b errno = refl

-- Where the bytes fit before the contents, `prepend` succeeds, puts them in front of the contents and
-- keeps the storage's size.
pub prepend_ok :
    {b : Buffer} (str : List ℕ)
    → IsValid b
    → length str ≤ prependable_bytes b
    → (c : Buffer) × (prepend b str ≡ ok c) × Holds b (str ++ contents b) 0 c
unfolding prepend
prepend_ok {b} str v h =
    let e : sub64 b.read_index (length str) ≡ b.read_index - length str = omega arith in
    let g : b.read_index - length str + length str ≤ length b.buffer = omega arith in
    let n = length-written str (b.read_index - length str) b.buffer g in
    let back : b.read_index - length str + length str ≡ b.read_index = omega arith in
    (
      record b {
        buffer = written str (b.read_index - length str) b.buffer;
        read_index = b.read_index - length str;
      },
      rw (le→leb _ _ h, e, copy_to_ok str _ b.buffer g),
      record {
        valid = record {
          order = omega arith;
          fits = omega (arith, n);
          front = omega (arith, n);
          small = omega (arith, n);
        };
        bytes =
            window-written_before str b.buffer (b.read_index - length str)
              (b.write_index - b.read_index) _ (omega arith) (omega arith)
            ∙ ap (λ i. str ++ window b.buffer i (b.write_index - b.read_index)) back;
        bound = omega (arith, n);
      },
    )

-- Where they do not fit, its assertion fails.
pub prepend_fault :
    (b : Buffer) (str : List ℕ)
    → prependable_bytes b < length str
    → prepend b str ≡ fault assert_failed
unfolding prepend
prepend_fault b str h = rw (lt→leb_false _ _ h)
