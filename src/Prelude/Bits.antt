-- ===== src/Prelude/Bits.antt =====
-- The binary digits of a number, and what `&`, `|` and the masks of the source do to them.
pub mod Words
pub mod Masks
use Prim.Native.Nat.{
  ℕ, zero, suc, ◌+◌, ◌-◌, ◌*◌, ◌/◌, ◌%◌, ◌≤◌, min, max, bit_and, bit_or, digits, bitwise,
  bit_and-bitwise, bit_or-bitwise,
}
use mathlib.Core.Path.{◌≡◌, refl, ◌∙◌}
use native.Mathlib.Omega.{arith}
use native.Mathlib.Decide.{dec_le}

-- Digit number `k`.
abbrev pub bit : ℕ → ℕ → ℕ
bit x zero = x % 2
bit x (suc k) = bit (x / 2) k

pub bit-le-one : (x k : ℕ) → bit x k ≤ 1
bit-le-one x zero = omega arith
bit-le-one x (suc k) = bit-le-one (x / 2) k

pub zero-bit : (k : ℕ) → bit 0 k ≡ 0
zero-bit zero = refl
zero-bit (suc k) = zero-bit k

-- The native operations recur on the digits with the first operand as fuel. One round more changes
-- nothing, so the fuel can be dropped.
module _ (z : ℕ → ℕ) (f : ℕ → ℕ → ℕ) where
  fuel_more : (n a b : ℕ) → a ≤ n → digits z f (suc n) a b ≡ digits z f n a b
  fuel_more zero zero b h = refl
  fuel_more zero (suc a) b h = absurd (omega arith)
  fuel_more (suc n) zero b h = refl
  fuel_more (suc n) (suc a) b h = omega (arith, fuel_more n (suc a / 2) (b / 2) (omega arith))

  fuel_least : (n a b : ℕ) → a ≤ n → digits z f n a b ≡ bitwise z f a b
  fuel_least zero zero b h = refl
  fuel_least zero (suc a) b h = absurd (omega arith)
  fuel_least (suc n) a b h = elim (dec_le a n) [
    | yes p ↦ fuel_more n a b p ∙ fuel_least n a b p
    | no q ↦ let e : a ≡ suc n = omega arith in rw e refl
  ]

  lowest :
      (x y : ℕ)
      → bitwise z f (suc x) y ≡ f (suc x % 2) (y % 2) + 2 * bitwise z f (suc x / 2) (y / 2)
  lowest x y = omega (arith, fuel_least x (suc x / 2) (y / 2) (omega arith))

-- The lowest digit of a native operation, and the operation on what is above it.
pub bit_and_lowest : (x y : ℕ) → bit_and x y ≡ min (x % 2) (y % 2) + 2 * bit_and (x / 2) (y / 2)
bit_and_lowest zero y = omega (arith, bit_and-bitwise 0 y, bit_and-bitwise 0 (y / 2))
bit_and_lowest (suc x) y = simp bit_and-bitwise (lowest (λ w. 0) min x y)

pub bit_or_lowest : (x y : ℕ) → bit_or x y ≡ max (x % 2) (y % 2) + 2 * bit_or (x / 2) (y / 2)
bit_or_lowest zero y = omega (arith, bit_or-bitwise 0 y, bit_or-bitwise 0 (y / 2))
bit_or_lowest (suc x) y = simp bit_or-bitwise (lowest (λ w. w) max x y)

-- Digit by digit, `&` is the smaller and `|` the larger.
pub bit-bit_and : (a b k : ℕ) → bit (bit_and a b) k ≡ min (bit a k) (bit b k)
bit-bit_and a b zero = omega (arith, bit_and_lowest a b)
bit-bit_and a b (suc k) =
    let half : bit_and a b / 2 ≡ bit_and (a / 2) (b / 2) = omega (arith, bit_and_lowest a b) in
    rw half (bit-bit_and (a / 2) (b / 2) k)

pub bit-bit_or : (a b k : ℕ) → bit (bit_or a b) k ≡ max (bit a k) (bit b k)
bit-bit_or a b zero = omega (arith, bit_or_lowest a b)
bit-bit_or a b (suc k) =
    let half : bit_or a b / 2 ≡ bit_or (a / 2) (b / 2) = omega (arith, bit_or_lowest a b) in
    rw half (bit-bit_or (a / 2) (b / 2) k)
