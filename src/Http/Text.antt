-- ===== src/Http/Text.antt =====
-- Strings as lists of bytes, and what the C++ library does to them.
use Prim.Native.Char.{code}
use Prim.Native.String.{String}
use tcp_net_library.Base.{
  ℕ, suc, ◌≡◌, ◌≢◌, refl, Bool, true, false, ◌&&◌, ◌||◌, List, [], ◌∷◌, ◌++◌, arith, length, leb,
  ◌==◌, if◌then◌else◌,
}

abbrev pub codes : String → List ℕ
codes String.[] = []
codes (String.◌∷◌ c s) = code c ∷ codes s

-- `==` of strings.
abbrev pub str_eq : List ℕ → List ℕ → Bool
str_eq [] [] = true
str_eq [] (y ∷ ys) = false
str_eq (x ∷ xs) [] = false
str_eq (x ∷ xs) (y ∷ ys) = x == y && str_eq xs ys

pub str_eq_refl : (xs : List ℕ) → str_eq xs xs ≡ true
str_eq_refl [] = refl
str_eq_refl (x ∷ xs) = ground (arith, str_eq_refl xs)

pub eq_of_str_eq : (xs ys : List ℕ) → str_eq xs ys ≡ true → xs ≡ ys
eq_of_str_eq [] [] h = refl
eq_of_str_eq [] (y ∷ ys) h = cc
eq_of_str_eq (x ∷ xs) [] h = cc
eq_of_str_eq (x ∷ xs) (y ∷ ys) h = ground (arith, eq_of_str_eq xs ys)

-- `std::find`: the offset of the first `c`, or the length.
unfoldable pub find : ℕ → List ℕ → ℕ
find c [] = 0
find c (x ∷ xs) = let rest = suc (find c xs) in if x == c then 0 else rest

-- `isspace` in the C locale.
unfoldable pub isspace : ℕ → Bool
isspace c = c == 32 || leb 9 c && leb c 13

-- The loop over the spaces at the front.
unfoldable pub trim_start : List ℕ → List ℕ
trim_start [] = []
trim_start (x ∷ xs) = let rest = trim_start xs in if isspace x then rest else x ∷ xs

abbrev is_empty : List ℕ → Bool
is_empty [] = true
is_empty (x ∷ xs) = false

-- The loop that cuts the last byte while it is a space.
unfoldable pub trim_end : List ℕ → List ℕ
trim_end [] = []
trim_end (x ∷ xs) = let rest = trim_end xs in if is_empty rest && isspace x then [] else x ∷ rest

-- `c` does not stand in the text.
abbrev pub Lacks : ℕ → List ℕ → Type 0
Lacks c [] = Unit {0}
Lacks c (x ∷ xs) = (x ≢ c) × Lacks c xs

pub find-append : (c : ℕ) (xs ys : List ℕ) → Lacks c xs → find c (xs ++ c ∷ ys) ≡ length xs
unfolding find
find-append c [] ys h = ground arith
find-append c (x ∷ xs) ys h = ground (arith, find-append c xs ys h.1)

pub find_none : (c : ℕ) (xs : List ℕ) → Lacks c xs → find c xs ≡ length xs
unfolding find
find_none c [] h = refl
find_none c (x ∷ xs) h = ground (arith, find_none c xs h.1)

pub Lacks-append : (c : ℕ) (xs ys : List ℕ) → Lacks c xs → Lacks c ys → Lacks c (xs ++ ys)
Lacks-append c [] ys h g = g
Lacks-append c (x ∷ xs) ys h g = (h.0, Lacks-append c xs ys h.1 g)
