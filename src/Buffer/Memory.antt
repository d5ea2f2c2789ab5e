-- ===== src/Buffer/Memory.antt =====
-- buffer.cpp: the moves of bytes within the storage.
use tcp_net_library.Base.{
  ℕ, ◌+◌, ◌-◌, ◌≤◌, ◌≡◌, sym, ap, ◌∙◌, List, ◌++◌, append_assoc, arith, length, take, drop,
  replicate, length-append, length-take, length-drop, length-replicate, take-append, drop-append,
  append-nil, drop-take, take-take_le, take_within, drop_within, take_past, ok, le→leb,
}
use tcp_net_library.Buffer.{resize, slice, copy_to, max_size}

-- The storage after a copy.
abbrev pub written : List ℕ → ℕ → List ℕ → List ℕ
written src i xs = take i xs ++ (src ++ drop (i + length src) xs)

pub copy_to_ok :
    (src : List ℕ) (i : ℕ) (xs : List ℕ)
    → i + length src ≤ length xs
    → copy_to src i xs ≡ ok (written src i xs)
unfolding copy_to
copy_to_ok src i xs h = rw (le→leb _ _ h)

pub slice_ok : (xs : List ℕ) (i n : ℕ) → i + n ≤ length xs → slice xs i n ≡ ok (take n (drop i xs))
unfolding slice
slice_ok xs i n h = rw (le→leb _ _ h)

pub resize_ok :
    (xs : List ℕ) (n : ℕ)
    → n ≤ max_size
    → resize xs n ≡ ok (take n xs ++ replicate (n - length xs) 0)
unfolding resize
resize_ok xs n h = rw (le→leb _ _ h)

pub length-written :
    (src : List ℕ) (i : ℕ) (xs : List ℕ)
    → i + length src ≤ length xs
    → length (written src i xs) ≡ length xs
length-written src i xs h = omega (
  arith,
  length-append (take i xs) (src ++ drop (i + length src) xs),
  length-append src (drop (i + length src) xs),
  length-take i xs,
  length-drop (i + length src) xs,
)

pub length-resize : (xs : List ℕ) (n : ℕ) → length (take n xs ++ replicate (n - length xs) 0) ≡ n
length-resize xs n = omega (
  arith,
  length-append (take n xs) (replicate (n - length xs) 0),
  length-take n xs,
  length-replicate {A = ℕ} (n - length xs) 0,
)

-- The `n` bytes from `i` on.
abbrev pub window : List ℕ → ℕ → ℕ → List ℕ
window xs i n = take n (drop i xs)

pub length-window : (xs : List ℕ) (i n : ℕ) → i + n ≤ length xs → length (window xs i n) ≡ n
length-window xs i n h = omega (arith, length-take n (drop i xs), length-drop i xs)

-- A copy behind the window extends it.
pub window-written_behind :
    (src xs : List ℕ) (r w : ℕ)
    → r ≤ w
    → w + length src ≤ length xs
    → window (written src w xs) r (w - r + length src) ≡ window xs r (w - r) ++ src
window-written_behind src xs r w h k =
    ap (take (w - r + length src)) (
      drop_within r (take w xs) _ (omega (arith, length-take w xs))
      ∙ ap (λ t. t ++ (src ++ drop (w + length src) xs)) (drop-take r w (w - r) xs (omega arith))
      ∙ sym (append_assoc (window xs r (w - r)) src _))
    ∙ take-append (window xs r (w - r) ++ src) _ _ (
        omega (
          arith,
          length-append (window xs r (w - r)) src,
          length-window xs r (w - r) (omega arith),
        ))

-- A copy just before the window puts its bytes in front.
pub window-written_before :
    (src xs : List ℕ) (i n k : ℕ)
    → i + length src + n ≤ length xs
    → k ≡ length src + n
    → window (written src i xs) i k ≡ src ++ window xs (i + length src) n
window-written_before src xs i n k h e =
    ap (take k) (drop-append (take i xs) _ i (omega (arith, length-take i xs)))
    ∙ take_past src _ n k e

pub window-written_at :
    (src xs : List ℕ) (i : ℕ)
    → i + length src ≤ length xs
    → window (written src i xs) i (length src) ≡ src
window-written_at src xs i h =
    window-written_before src xs i 0 (length src) (omega arith) (omega arith) ∙ append-nil src

-- A resize that keeps the window inside leaves it alone.
pub window-resize :
    (xs : List ℕ) (n r k : ℕ)
    → r + k ≤ n
    → r + k ≤ length xs
    → window (take n xs ++ replicate (n - length xs) 0) r k ≡ window xs r k
window-resize xs n r k h g =
    ap (take k) (
      drop_within r (take n xs) _ (omega (arith, length-take n xs))
      ∙ ap (λ t. t ++ replicate (n - length xs) 0) (drop-take r n (n - r) xs (omega arith)))
    ∙ take_within k (take (n - r) (drop r xs)) _
        (omega (arith, length-take (n - r) (drop r xs), length-drop r xs))
    ∙ take-take_le k (n - r) (drop r xs) (omega arith)
