-- ===== src/Common/Int.antt =====
-- A glong, over the native numbers.
use Prim.Native.Nat.{ℕ, suc, ◌+◌, ◌-◌}
use mathlib.Core.Bool.{Bool, false}
use budgie_screensaver.Common.Tests.{leb, ◌==◌, if◌then◌else◌}

-- `negsuc n` is -(n + 1).
pub data ℤ : Type 0 where
  pos : ℕ → ℤ
  negsuc : ℕ → ℤ

-- a - b, as an integer.
abbrev pub sub_ℕ : ℕ → ℕ → ℤ
sub_ℕ a b = if leb b a then pos (a - b) else negsuc (b - a - 1)

abbrev pub same_ℤ : ℤ → ℤ → Bool
same_ℤ (pos a) (pos b) = a == b
same_ℤ (pos a) (negsuc b) = false
same_ℤ (negsuc a) (pos b) = false
same_ℤ (negsuc a) (negsuc b) = a == b

-- n ≤ b
abbrev pub leb_ℤ : ℕ → ℤ → Bool
leb_ℤ n (pos b) = leb n b
leb_ℤ n (negsuc b) = false

-- n - b, where that is not negative.
abbrev pub minus : ℕ → ℤ → ℕ
minus n (pos b) = n - b
minus n (negsuc b) = n + suc b
