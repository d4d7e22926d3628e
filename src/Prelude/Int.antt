-- ===== src/Prelude/Int.antt =====
-- Signed integers, for what C calls `int` and `ssize_t`, under the library's names.
use Prim.Native.Nat.{ℕ, ◌+◌, ◌-◌, ◌^◌}
use mathlib.Core.Bool.{Bool, true, false}
use c4irp.Prelude.Tests.{leb, ltb, ◌==◌, if◌then◌else◌}

-- `negsuc n` is -(n + 1).
pub data ℤ : Type 0 where
  pos : ℕ → ℤ
  negsuc : ℕ → ℤ

abbrev pub is_neg : ℤ → Bool
is_neg (pos n) = false
is_neg (negsuc n) = true

abbrev pub is_pos : ℤ → Bool
is_pos (pos n) = ltb 0 n
is_pos (negsuc n) = false

abbrev pub is_zero : ℤ → Bool
is_zero (pos n) = n == 0
is_zero (negsuc n) = false

abbrev pub eq_ℤ : ℤ → ℤ → Bool
eq_ℤ (pos m) (pos n) = m == n
eq_ℤ (negsuc m) (negsuc n) = m == n
eq_ℤ _ _ = false

infixl 65 ◌+ℤ◌ ◌-ℤ◌
abbrev pub ◌+ℤ◌ : ℤ → ℕ → ℤ
pos m +ℤ n = pos (m + n)
negsuc m +ℤ n = if leb n m then negsuc (m - n) else pos (n - m - 1)

abbrev pub ◌-ℤ◌ : ℤ → ℕ → ℤ
pos m -ℤ n = if leb n m then pos (m - n) else negsuc (n - m - 1)
negsuc m -ℤ n = negsuc (m + n)

-- The conversion from `int` to `size_t`.
abbrev pub to_size : ℤ → ℕ
to_size (pos n) = n
to_size (negsuc n) = 2 ^ 64 - 1 - n

-- What is counted by an `int` that is not negative.
abbrev pub pos_part : ℤ → ℕ
pos_part (pos n) = n
pos_part (negsuc n) = 0

abbrev pub sub_ℤ : ℤ → ℤ → ℤ
sub_ℤ a (pos n) = a -ℤ n
sub_ℤ a (negsuc n) = a +ℤ (n + 1)
