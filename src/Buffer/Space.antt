-- ===== src/Buffer/Space.antt =====
-- buffer.cpp: `makeSpace` and `ensureWritableBytes`.
use tcp_net_library.Base.{
  Bool, ℕ, ◌+◌, ◌-◌, ◌≤◌, ◌<◌, ◌≡◌, arith, length, ok, refl, ap, inl, inr, ltb, leb, Bool-cases,
  add64, lt→ltb, le→leb, ltb_false→le, true, ltb→lt, ==_refl, sub64, take, replicate, ◌++◌, ◌∙◌,
}
use tcp_net_library.Buffer.{
  Buffer, max_size, readable_bytes, writable_bytes, prependable_bytes, cheap_prepared, enlarge,
  move_down, make_space, ensure_writable_bytes,
}
use tcp_net_library.Buffer.Memory.{
  window, written, length-window, slice_ok, copy_to_ok, resize_ok, length-resize, window-resize,
  length-written, window-written_at,
}
use tcp_net_library.Buffer.Invariant.{IsValid, contents, readable, writable}

-- What is left of `b` once `len` bytes can be written.
pub record Roomy (b : Buffer) (len : ℕ) (c : Buffer) : Type 0 where
  pub valid : IsValid c
  pub same : contents c ≡ contents b
  pub room : c.write_index + len ≤ length c.buffer
  pub bound : length c.buffer ≤ length b.buffer + len
  pub in_place : len ≤ writable_bytes b → c ≡ b

abbrev enlarged : Buffer → ℕ → Buffer
enlarged b len = record b { buffer = take n b.buffer ++ replicate (n - length b.buffer) 0 }
  where
    n : ℕ
    n = b.write_index + len

enlarge_ok :
    {b : Buffer} (len : ℕ)
    → IsValid b
    → length b.buffer + len ≤ max_size
    → length b.buffer < b.write_index + len
    → (c : Buffer) × (enlarge b len ≡ ok c) × Roomy b len c
unfolding enlarge
enlarge_ok {b} len v s h =
    let e : add64 b.write_index len ≡ b.write_index + len = omega arith in
    let n : length (enlarged b len).buffer ≡ b.write_index + len = length-resize b.buffer _ in
    (
      enlarged b len,
      rw (e, resize_ok b.buffer (b.write_index + len) (omega arith)),
      record {
        valid = record {
          order = v.order;
          fits = omega arith;
          front = omega arith;
          small = omega arith;
        };
        same =
            window-resize b.buffer (b.write_index + len) b.read_index _ (omega arith) (omega arith);
        room = omega arith;
        bound = omega arith;
        in_place = λ g. absurd (omega arith);
      },
    )

abbrev moved : Buffer → Buffer
moved b = record b {
  buffer = written (contents b) cheap_prepared b.buffer;
  read_index = cheap_prepared;
  write_index = cheap_prepared + (b.write_index - b.read_index);
}

move_down_ok :
    {b : Buffer} (len : ℕ)
    → IsValid b
    → cheap_prepared < b.read_index
    → length b.buffer < b.write_index + len
    → len + cheap_prepared ≤ length b.buffer - b.write_index + b.read_index
    → (c : Buffer) × (move_down b ≡ ok c) × Roomy b len c
unfolding move_down
move_down_ok {b} len v h g k =
    let e : readable_bytes b ≡ b.write_index - b.read_index = readable v in
    let w : add64 cheap_prepared (b.write_index - b.read_index)
        ≡ cheap_prepared + (b.write_index - b.read_index) =
      omega arith in
    let back : sub64 (cheap_prepared + (b.write_index - b.read_index)) cheap_prepared
        ≡ b.write_index - b.read_index =
      omega arith in
    let n : length (contents b) ≡ b.write_index - b.read_index =
      length-window b.buffer b.read_index _ (omega arith) in
    let m : length (moved b).buffer ≡ length b.buffer =
      length-written (contents b) cheap_prepared b.buffer (omega arith) in
    (
      moved b,
      rw (
        lt→ltb _ _ h,
        e,
        slice_ok b.buffer b.read_index (b.write_index - b.read_index) (omega arith),
        copy_to_ok (contents b) cheap_prepared b.buffer (omega arith),
        w,
        back,
        ==_refl,
      ),
      record {
        valid = record {
          order = omega arith;
          fits = omega arith;
          front = omega arith;
          small = omega arith;
        };
        same =
            ap (window (moved b).buffer cheap_prepared) (omega (arith, n))
            ∙ window-written_at (contents b) b.buffer cheap_prepared (omega arith);
        room = omega arith;
        bound = omega arith;
        in_place = λ t. absurd (omega arith);
      },
    )

make_space_ok :
    {b : Buffer} (len : ℕ)
    → IsValid b
    → length b.buffer + len + cheap_prepared ≤ max_size
    → length b.buffer < b.write_index + len
    → (c : Buffer) × (make_space b len ≡ ok c) × Roomy b len c
unfolding make_space
make_space_ok {b} len v s h = elim (Bool-cases full) [
  | inl e ↦ rw e (enlarge_ok len v (omega arith) h)
  | inr e ↦
      rw e (
        move_down_ok len v (omega (arith, ltb_false→le _ _ e)) h
          (omega (arith, ltb_false→le _ _ e)))
]
  where
    free : ℕ
    free = add64 (writable_bytes b) (prependable_bytes b)

    full : Bool
    full = ltb free (add64 len cheap_prepared)

-- `ensureWritableBytes(len)` never fails while the sizes stay below the largest vector: it leaves the
-- buffer alone where there is room, and else makes room, with the same contents, adding at most `len`
-- bytes to the storage.
pub ensure_writable_bytes_ok :
    {b : Buffer} (len : ℕ)
    → IsValid b
    → length b.buffer + len + cheap_prepared ≤ max_size
    → (c : Buffer) × (ensure_writable_bytes b len ≡ ok c) × Roomy b len c
unfolding ensure_writable_bytes
ensure_writable_bytes_ok {b} len v s = elim (Bool-cases (ltb (writable_bytes b) len)) [
  | inl e ↦
      let (c, p, r) = make_space_ok len v s (omega (arith, ltb→lt _ _ e)) in
      (c, rw (e, p, fits_in c r), r)
  | inr e ↦
      let g : b.write_index + len ≤ length b.buffer = omega (arith, ltb_false→le _ _ e) in
      (
        b,
        rw (e, le→leb _ _ (ltb_false→le (writable_bytes b) len e)),
        record { valid = v; same = refl; room = g; bound = omega arith; in_place = λ _. refl },
      )
]
  where
    fits_in : (c : Buffer) → Roomy b len c → leb len (writable_bytes c) ≡ true
    fits_in c r = le→leb _ _ (omega (arith, writable r.valid, r.room))
