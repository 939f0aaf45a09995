-- ===== src/Prelude/Int.antt =====
-- Signed integers over the native numbers, as far as field widths need them: `negsuc n` is -(n + 1).
use Prim.Native.Nat.{ℕ, suc, ◌+◌, ◌-◌}
use native.Mathlib.Omega.{arith}
use mathlib.Core.Path.{◌≡◌}
use linux_0_1_1_comment.Prelude.Tests.{leb, if◌then◌else◌}

pub data ℤ : Type 0 where
  pos : ℕ → ℤ
  negsuc : ℕ → ℤ

abbrev pub pos_part : ℤ → ℕ
pos_part (pos n) = n
pos_part (negsuc n) = 0

abbrev pub neg_part : ℤ → ℕ
neg_part (pos n) = 0
neg_part (negsuc n) = suc n

-- a - b, as an integer.
abbrev pub sub_ℕ : ℕ → ℕ → ℤ
sub_ℕ a b = if leb b a then pos (a - b) else negsuc (b - a - 1)

-- `z -= n`
abbrev pub minus : ℤ → ℕ → ℤ
minus z n = sub_ℕ (pos_part z) (neg_part z + n)

pub pos_part-minus : (z : ℤ) (n : ℕ) → pos_part (minus z n) ≡ pos_part z - n
pos_part-minus (pos m) n = ground arith
pos_part-minus (negsuc m) n = ground arith
