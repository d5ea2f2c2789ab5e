-- ===== src/Base/Results.antt =====
-- Fallible code. A fault ends the process: a failed `assert`, an exception, a call of `log_fatal`,
-- an access that the source's types do not bound, or a division by zero. `out_of_fuel` is a loop
-- that has not ended.
use mathlib.Core.Path.{◌≡◌, refl}
use mathlib.Core.Bool.{Bool, true, false}

pub data Fault : Type 0 where
  assert_failed length_error out_of_bounds fatal bad_function out_of_fuel divide_by_zero : Fault

pub data Result {ℓ} (Value : Type ℓ) : Type ℓ where
  fault : Fault → Result Value
  ok : Value → Result Value

-- `assert(b)`, compiled in: the build does not define NDEBUG.
abbrev pub assert : Bool → Result (Unit {0})
assert false = fault assert_failed
assert true = ok tt

infixl 5 ◌>>=◌
abbrev pub ◌>>=◌ {i j} : {X : Type i} {Y : Type j} → Result X → (X → Result Y) → Result Y
fault why >>= next = fault why
ok x >>= next = next x

-- A step for its effect.
infixl 5 ◌>>◌
abbrev pub ◌>>◌ {j} : {Y : Type j} → Result (Unit {0}) → Result Y → Result Y
fault why >> next = fault why
ok _ >> next = next

-- A step that succeeds has a first part that succeeds.
pub >>=_inv {i j} :
    {X : Type i} {Y : Type j} (first : Result X) (next : X → Result Y) {y : Y}
    → (first >>= next) ≡ ok y
    → (x : X) × (first ≡ ok x) × (next x ≡ ok y)
>>=_inv (fault why) next h = cc
>>=_inv (ok x) next h = (x, refl, h)

pub ok_inj {i} : {X : Type i} {x y : X} → ok x ≡ ok y → x ≡ y
ok_inj h = cc
