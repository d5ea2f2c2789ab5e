-- ===== src/Base/Printf.antt =====
-- Numbers as `snprintf` writes them, and their values read back.
use Prim.Native.Nat.{ℕ, zero, suc, ◌+◌, ◌-◌, ◌*◌, ◌/◌, ◌%◌, ◌≤◌, ◌<◌}
use mathlib.Core.Path.{◌≡◌, refl, ap, sym, ◌∙◌}
use mathlib.Core.List.{List, [], ◌∷◌, ◌++◌}
use native.Mathlib.Omega.{arith}
use tcp_net_library.Base.Lists.{length, replicate, take, length-append, length-replicate}
use tcp_net_library.Base.Tests.{ltb, if◌then◌else◌}

-- `%d` of a number that is not negative; twenty digits hold every 64-bit word.
unfoldable pub decimal_from : ℕ → ℕ → List ℕ → List ℕ
decimal_from zero n acc = acc
decimal_from (suc f) n acc =
    let more = decimal_from f (n / 10) ((48 + n % 10) ∷ acc) in
    if ltb n 10 then (48 + n) ∷ acc else more

abbrev pub decimal : ℕ → List ℕ
decimal n = decimal_from 20 n []

-- `%0wd` with the pad 48, `%wd` with the pad 32.
abbrev pub padded : ℕ → ℕ → ℕ → List ℕ
padded pad w n = replicate (w - length (decimal n)) pad ++ decimal n

-- `snprintf` into `size` bytes, the last of which is 0.
abbrev pub snprintf : ℕ → List ℕ → List ℕ
snprintf size text = take (size - 1) text

abbrev pub pow10 : ℕ → ℕ
pow10 zero = 1
pow10 (suc d) = 10 * pow10 d

abbrev pub value : ℕ → List ℕ → ℕ
value acc [] = acc
value acc (c ∷ cs) = value (acc * 10 + (c - 48)) cs

pub value-decimal_from :
    (f n : ℕ) (out : List ℕ) → n < pow10 f → value 0 (decimal_from f n out) ≡ value n out
unfolding decimal_from
value-decimal_from zero n out h = let e : n ≡ 0 = omega arith in ap (λ t. value t out) (sym e)
value-decimal_from (suc f) n out h =
    ground (arith, value-decimal_from f (n / 10) ((48 + n % 10) ∷ out))

pub value-zeros : (k : ℕ) (xs : List ℕ) → value 0 (replicate k 48 ++ xs) ≡ value 0 xs
value-zeros zero xs = refl
value-zeros (suc k) xs = value-zeros k xs

pub length-decimal_from :
    (f d n : ℕ) (out : List ℕ)
    → n < pow10 d
    → 1 ≤ d
    → d ≤ f
    → length (decimal_from f n out) ≤ d + length out
unfolding decimal_from
length-decimal_from zero d n out h a b = absurd (omega arith)
length-decimal_from (suc f) zero n out h a b = absurd (omega arith)
length-decimal_from (suc f) (suc zero) n out h a b = ground arith
length-decimal_from (suc f) (suc (suc d)) n out h a b = ground (
  arith,
  length-decimal_from f (suc d) (n / 10) ((48 + n % 10) ∷ out) (omega arith) (omega arith)
      (omega arith),
)

-- At most `d` digits.
pub length-decimal : (d n : ℕ) → n < pow10 d → 1 ≤ d → d ≤ 20 → length (decimal n) ≤ d
length-decimal d n h a b = omega (arith, length-decimal_from 20 d n [] h a b)

pub length-padded : (pad w n : ℕ) → n < pow10 w → 1 ≤ w → w ≤ 20 → length (padded pad w n) ≡ w
length-padded pad w n h a b = omega (
  arith,
  length-append (replicate (w - length (decimal n)) pad) (decimal n),
  length-replicate (w - length (decimal n)) pad,
  length-decimal w n h a b,
)

pub value-padded : (w n : ℕ) → n < pow10 20 → value 0 (padded 48 w n) ≡ n
value-padded w n h = value-zeros (w - length (decimal n)) (decimal n) ∙ value-decimal_from 20 n [] h
