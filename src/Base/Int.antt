-- ===== src/Base/Int.antt =====
-- Signed integers of the source, where their sign matters: a file descriptor that is switched off is
-- kept as -fd-1, which is `negsuc fd`.
use Prim.Native.Nat.{ℕ}
use mathlib.Core.Bool.{Bool, true, false}
use tcp_net_library.Base.Tests.{◌==◌}

-- `negsuc n` is -(n + 1).
pub data ℤ : Type 0 where
  pos : ℕ → ℤ
  negsuc : ℕ → ℤ

abbrev pub is_negative : ℤ → Bool
is_negative (pos n) = false
is_negative (negsuc n) = true

-- `-z - 1`
abbrev pub flip : ℤ → ℤ
flip (pos n) = negsuc n
flip (negsuc n) = pos n

abbrev pub eq_ℤ : ℤ → ℤ → Bool
eq_ℤ (pos a) (pos b) = a == b
eq_ℤ (negsuc a) (negsuc b) = a == b
eq_ℤ _ _ = false
