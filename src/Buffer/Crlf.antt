-- ===== src/Buffer/Crlf.antt =====
-- buffer.cpp: `findCRLF`.
use tcp_net_library.Base.{
  ℕ, zero, suc, ◌+◌, ◌-◌, ◌<◌, ◌≡◌, List, [], ◌∷◌, arith, Option, none, some, take, drop, drop-nil,
  ok, true, false, Bool, ◌==◌, ◌&&◌, inl, inr, Bool-cases,
}
use tcp_net_library.Buffer.{Buffer, peek, find_crlf, search_crlf}
use tcp_net_library.Buffer.Memory.{slice_ok}
use tcp_net_library.Buffer.Invariant.{IsValid, contents, readable}

-- CR LF stands at position `j`.
abbrev CrlfAt : List ℕ → ℕ → Type 0
CrlfAt xs j = take 2 (drop j xs) ≡ 13 ∷ 10 ∷ []

-- `p` is the first CR LF of the bytes from offset `i` on; `none`: there is none.
abbrev pub IsFirst : List ℕ → ℕ → Option ℕ → Type 0
IsFirst xs i none = (j : ℕ) → ¬ CrlfAt xs j
IsFirst xs i (some p) = (k : ℕ) × (p ≡ i + k) × CrlfAt xs k × ((j : ℕ) → j < k → ¬ CrlfAt xs j)

not-CrlfAt_nil : (j : ℕ) → ¬ CrlfAt [] j
not-CrlfAt_nil j h = cc (drop-nil {A = ℕ} j)

not-CrlfAt_one : (x j : ℕ) → ¬ CrlfAt (x ∷ []) j
not-CrlfAt_one x zero h = cc
not-CrlfAt_one x (suc j) h = not-CrlfAt_nil j h

abbrev is_crlf : ℕ → ℕ → Bool
is_crlf x y = x == 13 && y == 10

here : (x y : ℕ) (xs : List ℕ) → is_crlf x y ≡ true → CrlfAt (x ∷ y ∷ xs) 0
here x y xs h = ground arith

not_here : (x y : ℕ) (xs : List ℕ) → is_crlf x y ≡ false → ¬ CrlfAt (x ∷ y ∷ xs) 0
not_here x y xs h e = ground arith

later :
    (x y : ℕ) (xs : List ℕ) (i : ℕ) (o : Option ℕ)
    → is_crlf x y ≡ false
    → IsFirst (y ∷ xs) (i + 1) o
    → IsFirst (x ∷ y ∷ xs) i o
later x y xs i none h f = elim [ zero ↦ not_here x y xs h | suc j ↦ f j ]
later x y xs i (some p) h (k, e, found, first) = (suc k, omega arith, found, before)
  where
    before : (j : ℕ) → j < suc k → ¬ CrlfAt (x ∷ y ∷ xs) j
    before zero g t = not_here x y xs h t
    before (suc j) g t = first j (omega arith) t

search_crlf-IsFirst : (xs : List ℕ) (i : ℕ) → IsFirst xs i (search_crlf xs i)
unfolding search_crlf
search_crlf-IsFirst [] i = not-CrlfAt_nil
search_crlf-IsFirst (x ∷ []) i = not-CrlfAt_one x
search_crlf-IsFirst (x ∷ y ∷ xs) i =
    let rest = search_crlf-IsFirst (y ∷ xs) (i + 1) in
    elim (Bool-cases (is_crlf x y)) [
      | inl e ↦ rw e (0, omega arith, here x y xs e, λ j g. absurd (omega arith))
      | inr e ↦ rw e (later x y xs i (search_crlf (y ∷ xs) (i + 1)) e rest)
    ]

pub find_crlf_ok : {b : Buffer} → IsValid b → find_crlf b ≡ ok (search_crlf (contents b) (peek b))
unfolding find_crlf
find_crlf_ok {b} v = rw (
  readable v,
  slice_ok b.buffer b.read_index (b.write_index - b.read_index) (omega (arith, v.order, v.fits)),
)

-- `findCRLF` finishes without a fault, and answers the first CR LF of the contents, or none exactly
-- when there is none.
find_crlf-IsFirst :
    {b : Buffer}
    → IsValid b
    → (o : Option ℕ) × (find_crlf b ≡ ok o) × IsFirst (contents b) (peek b) o
find_crlf-IsFirst {b} v =
    (search_crlf (contents b) (peek b), find_crlf_ok v, search_crlf-IsFirst (contents b) (peek b))
