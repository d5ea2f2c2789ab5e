-- ===== src/Buffer/Invariant.antt =====
-- buffer.h: what a buffer holds, and when its indices are in order.
use tcp_net_library.Base.{ℕ, ◌-◌, ◌≤◌, ◌≡◌, List, arith, length}
use tcp_net_library.Buffer.{Buffer, cheap_prepared, max_size, readable_bytes, writable_bytes}
use tcp_net_library.Buffer.Memory.{window, length-window}

-- The readable bytes, oldest first.
abbrev pub contents : Buffer → List ℕ
contents b = window b.buffer b.read_index (b.write_index - b.read_index)

pub record IsValid (b : Buffer) : Type 0 where
  pub order : b.read_index ≤ b.write_index
  pub fits : b.write_index ≤ length b.buffer
  pub front : cheap_prepared ≤ length b.buffer
  pub small : length b.buffer ≤ max_size

pub readable : {b : Buffer} → IsValid b → readable_bytes b ≡ b.write_index - b.read_index
readable v = omega arith

pub writable : {b : Buffer} → IsValid b → writable_bytes b ≡ length b.buffer - b.write_index
writable v = omega arith

-- `readableBytes()` counts the contents.
pub length-contents : {b : Buffer} → IsValid b → length (contents b) ≡ readable_bytes b
length-contents {b} v =
    omega (arith, length-window b.buffer b.read_index (b.write_index - b.read_index))
