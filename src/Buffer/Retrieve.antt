-- ===== src/Buffer/Retrieve.antt =====
-- buffer.cpp: `retrieve`, `retrieveUntil`, `retrieveAll` and `retrieveAsString`.
use tcp_net_library.Base.{
  ℕ, ◌+◌, ◌-◌, ◌≤◌, ◌<◌, ◌≡◌, refl, ap, sym, ◌∙◌, List, [], arith, take, drop, drop-take, drop-drop,
  ok, fault, assert_failed, le→leb, lt→leb_false, add64, sub64,
}
use tcp_net_library.Buffer.{
  Buffer, peek, begin_write, readable_bytes, retrieve, retrieve_until, retrieve_all,
  retrieve_as_string,
}
use tcp_net_library.Buffer.Memory.{slice_ok}
use tcp_net_library.Buffer.Invariant.{IsValid, contents, readable}

-- `c` is in order, has the storage of `b`, and holds `xs`.
pub record Keeps (b : Buffer) (xs : List ℕ) (c : Buffer) : Type 0 where
  pub valid : IsValid c
  pub bytes : contents c ≡ xs
  pub storage : c.buffer ≡ b.buffer

-- Up to the number of readable bytes, `retrieve` drops as many bytes from the front.
pub retrieve_ok :
    {b : Buffer} (len : ℕ)
    → IsValid b
    → len ≤ readable_bytes b
    → (c : Buffer) × (retrieve b len ≡ ok c) × Keeps b (drop len (contents b)) c
unfolding retrieve
retrieve_ok {b} len v h =
    let e : add64 b.read_index len ≡ b.read_index + len = omega arith in
    let rest : ℕ = b.write_index - (b.read_index + len) in
    (
      record b { read_index = b.read_index + len },
      rw (le→leb _ _ h, e),
      record {
        valid = record { order = omega arith; fits = v.fits; front = v.front; small = v.small };
        bytes =
            ap (take rest) (sym (drop-drop len b.read_index _ b.buffer (omega arith)))
            ∙ sym (
                drop-take len (b.write_index - b.read_index) rest (drop b.read_index b.buffer)
                  (omega arith));
        storage = refl;
      },
    )

-- Past that number its assertion fails.
pub retrieve_fault :
    (b : Buffer) (len : ℕ) → readable_bytes b < len → retrieve b len ≡ fault assert_failed
unfolding retrieve
retrieve_fault b len h = rw (lt→leb_false _ _ h)

-- `retrieveUntil` up to a pointer into the readable bytes drops the bytes before it.
pub retrieve_until_ok :
    {b : Buffer} (end : ℕ)
    → IsValid b
    → peek b ≤ end
    → end ≤ begin_write b
    → (c : Buffer) × (retrieve_until b end ≡ ok c) × Keeps b (drop (end - peek b) (contents b)) c
unfolding retrieve_until
retrieve_until_ok {b} end v h k =
    let e : sub64 end b.read_index ≡ end - b.read_index = omega arith in
    rw (le→leb _ _ h, le→leb _ _ k, e) (retrieve_ok (end - b.read_index) v (omega arith))

-- Past the readable bytes its assertion fails.
pub retrieve_until_fault :
    {b : Buffer} (n : ℕ)
    → IsValid b
    → readable_bytes b < n
    → retrieve_until b (peek b + n) ≡ fault assert_failed
unfolding retrieve_until
retrieve_until_fault {b} n v h = rw (
  le→leb b.read_index (b.read_index + n) (omega arith),
  lt→leb_false (b.read_index + n) b.write_index (omega (arith, readable v)),
)

-- `retrieveAsString` answers the whole contents and leaves an empty buffer.
pub retrieve_as_string_ok :
    {b : Buffer}
    → IsValid b
    → (c : Buffer) × (retrieve_as_string b ≡ ok (contents b, c)) × Keeps b [] c
unfolding retrieve_as_string retrieve_all
retrieve_as_string_ok {b} v =
    let e : readable_bytes b ≡ b.write_index - b.read_index = readable v in
    (
      retrieve_all b,
      rw (e, slice_ok b.buffer b.read_index (b.write_index - b.read_index) (omega arith)),
      record {
        valid = record { order = omega arith; fits = v.front; front = v.front; small = v.small };
        bytes = refl;
        storage = refl;
      },
    )
