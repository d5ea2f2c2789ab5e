-- ===== src/Http/Map.antt =====
-- `std::map<string,string>`: the pairs in the order of their keys, which is that of the bytes.
use tcp_net_library.Base.{
  ℕ, ◌≡◌, refl, ap, Bool, true, false, List, [], ◌∷◌, arith, Option, none, some, if◌then◌else◌,
  Bool-cases, inl, inr, ◌==◌, ltb,
}
use tcp_net_library.Http.Text.{str_eq, eq_of_str_eq}

abbrev pub StringMap : Type 0
StringMap = List (List ℕ × List ℕ)

-- `<` of strings.
unfoldable pub str_lt : List ℕ → List ℕ → Bool
str_lt [] [] = false
str_lt [] (y ∷ ys) = true
str_lt (x ∷ xs) [] = false
str_lt (x ∷ xs) (y ∷ ys) = let rest = str_lt xs ys in if x == y then rest else ltb x y

-- `find`
unfoldable pub lookup : List ℕ → StringMap → Option (List ℕ)
lookup k [] = none
lookup k ((j, v) ∷ m) = let rest = lookup k m in if str_eq j k then some v else rest

-- `m[k] = v`
unfoldable pub insert : List ℕ → List ℕ → StringMap → StringMap
insert k v [] = (k, v) ∷ []
insert k v ((j, w) ∷ m) =
    let rest = insert k v m in
    if str_eq j k then (k, v) ∷ m else if str_lt k j then (k, v) ∷ (j, w) ∷ m else (j, w) ∷ rest

str_eq_trans_false : (i j k : List ℕ) → str_eq i k ≡ true → str_eq i j ≡ str_eq k j
str_eq_trans_false i j k h = ap (λ t. str_eq t j) (eq_of_str_eq i k h)

str_eq_right : (i j k : List ℕ) → str_eq k j ≡ true → str_eq i k ≡ str_eq i j
str_eq_right i j k h = ap (str_eq i) (eq_of_str_eq k j h)

-- A write is seen at its key and nowhere else.
pub lookup-insert :
    (k j v : List ℕ) (m : StringMap)
    → lookup j (insert k v m) ≡ (if str_eq k j then some v else lookup j m)
unfolding lookup insert
lookup-insert k j v [] = refl
lookup-insert k j v ((i, w) ∷ m) = elim (Bool-cases (str_eq i k)) [
  | inl e ↦ rw (e, str_eq_trans_false i j k e) (ground arith)
  | inr e ↦ rw e (elim (Bool-cases (str_lt k i)) [
    | inl l ↦ rw l (ground arith)
    | inr g ↦
        rw (g, lookup-insert k j v m)
          (elim (Bool-cases (str_eq k j)) [
            | inl a ↦ rw (a, ← str_eq_right i j k a, e)
            | inr b ↦ rw b
          ])
  ])
]
