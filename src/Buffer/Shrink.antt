-- ===== src/Buffer/Shrink.antt =====
-- buffer.cpp: `shrink`.
use tcp_net_library.Base.{
  ℕ, ◌+◌, ◌-◌, ◌≤◌, ◌≡◌, ◌++◌, [], refl, ap, sym, ◌∙◌, List, arith, length, ok, take, replicate,
  add64, ◌↔◌, ap₂,
}
use tcp_net_library.Buffer.{
  Buffer, max_size, cheap_prepared, readable_bytes, writable_bytes, shrink,
}
use tcp_net_library.Buffer.Memory.{
  window, written, length-window, resize_ok, slice_ok, copy_to_ok, length-written, length-resize,
  window-written_at,
}
use tcp_net_library.Buffer.Invariant.{IsValid, contents, readable}

fresh : ℕ → List ℕ
fresh n = take n [] ++ replicate (n - length {A = ℕ} []) 0

shrunk :
    {b : Buffer} (reserve : ℕ)
    → IsValid b
    → length b.buffer + reserve + cheap_prepared ≤ max_size
    → (c : Buffer) × (shrink b reserve ≡ ok c)
      × (c.read_index ≡ b.read_index)
      × (c.write_index ≡ b.write_index)
      × (length c.buffer ≡ cheap_prepared + readable_bytes b + reserve)
      × (window c.buffer cheap_prepared (readable_bytes b) ≡ contents b)
unfolding shrink fresh
shrunk {b} reserve v s =
    let e : readable_bytes b ≡ b.write_index - b.read_index = readable v in
    let d : ℕ = b.write_index - b.read_index in
    let n : ℕ = cheap_prepared + d + reserve in
    let t : add64 (add64 cheap_prepared d) reserve ≡ n = omega arith in
    let m : length (contents b) ≡ d = length-window b.buffer b.read_index d (omega arith) in
    let l : length (fresh n) ≡ n = length-resize [] n in
    let g : cheap_prepared + length (contents b) ≤ length (fresh n) = omega arith in
    (
      record b { buffer = written (contents b) cheap_prepared (fresh n) },
      rw (
        e,
        t,
        resize_ok [] n (omega arith),
        slice_ok b.buffer b.read_index d (omega arith),
        copy_to_ok (contents b) cheap_prepared (fresh n) g,
      ),
      refl,
      refl,
      rw e (omega (arith, length-written (contents b) cheap_prepared (fresh n) g)),
      rw e (
          ap (window (written (contents b) cheap_prepared (fresh n)) cheap_prepared) (sym m)
          ∙ window-written_at (contents b) (fresh n) cheap_prepared g),
    )

-- `shrink` succeeds, and its result is in order exactly when the read index was at most the reserve
-- past the initial one: it cuts the storage without moving the indices along.
pub shrink-IsValid_iff :
    {b : Buffer} (reserve : ℕ)
    → IsValid b
    → length b.buffer + reserve + cheap_prepared ≤ max_size
    → (c : Buffer) × (shrink b reserve ≡ ok c)
      × (IsValid c ↔ (b.read_index ≤ cheap_prepared + reserve))
shrink-IsValid_iff {b} reserve v s =
    let (c, p, r, w, l, _) = shrunk reserve v s in
    (
      c,
      p,
      (
        λ k. omega (arith, k.fits, w, l),
        λ h. record {
          order = omega arith;
          fits = omega arith;
          front = omega arith;
          small = omega arith;
        },
      ),
    )

-- Where nothing had been retrieved or prepended before, `shrink` keeps the contents and leaves
-- exactly the reserve as the writable part.
pub shrink-contents :
    {b : Buffer} (reserve : ℕ)
    → IsValid b
    → length b.buffer + reserve + cheap_prepared ≤ max_size
    → b.read_index ≡ cheap_prepared
    → (c : Buffer) × (shrink b reserve ≡ ok c)
      × (contents c ≡ contents b)
      × (writable_bytes c ≡ reserve)
shrink-contents {b} reserve v s h =
    let (c, p, r, w, l, same) = shrunk reserve v s in
    (c, p, ap₂ (window c.buffer) (r ∙ h) (omega arith) ∙ same, omega arith)
