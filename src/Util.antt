-- ===== src/Util.antt =====
-- src/util.h: the integer and byte helpers. rand is the C library's.
pub mod Memory
pub mod Msb
pub mod Hex
pub mod Random
pub mod Tests
use c4irp.Prelude.{
  ℕ, zero, suc, ◌+◌, ◌-◌, ◌*◌, ◌/◌, ◌%◌, ◌^◌, bit_and, List, [], ◌∷◌, ◌++◌, ◌==◌, leb,
  if◌then◌else◌, get_elem?, length,
}
use c4irp.Prelude.Bytes.{le32}
use c4irp.Prelude.Outcome.{◌>>=◌, ◌>>◌, Outcome, done, deref, assert}

-- The table `bval` of ch_msb32: the number of digits of 0 to 15.
abbrev bval : List ℕ
bval = 0 ∷ 1 ∷ 2 ∷ 2 ∷ 3 ∷ 3 ∷ 3 ∷ 3 ∷ 4 ∷ 4 ∷ 4 ∷ 4 ∷ 4 ∷ 4 ∷ 4 ∷ 4 ∷ []

-- The two variables of ch_msb32.
pub record Scan : Type 0 where
  pub r : ℕ
  pub x : ℕ

-- `if (x & mask) { r += n; x >>= n; }`
narrow : ℕ → ℕ → Scan → Scan
narrow mask n s =
    if bit_and s.x mask == 0 then s else record s { r = (s.r + n) % 2 ^ 32; x = s.x / 2 ^ n }

-- ch_msb32. The read of `bval` is checked against its length.
unfoldable pub msb32 : ℕ → Outcome ℕ
unfolding narrow
msb32 x =
    let s = narrow 0xF0 4 (narrow 0xFF00 8 (narrow 0xFFFF0000 16 (record { r = 0; x = x }))) in
    do v ← deref (get_elem? bval s.x); done ((s.r + v) % 2 ^ 32)

-- A digit of snprintf's "%02X" for a value below 16.
unfoldable pub hex_digit : ℕ → ℕ
hex_digit d = if leb d 9 then b'0' + d else b'A' + (d - 10)

-- The loop of ch_bytes_to_hex: snprintf(str, 3, "%02X", byte) for each byte.
unfoldable pub hex_digits : List ℕ → List ℕ
unfolding hex_digit
hex_digits [] = []
hex_digits (b ∷ bs) = hex_digit (b / 16) ∷ hex_digit (b % 16) ∷ hex_digits bs

-- ch_bytes_to_hex: what is written to `str`, which has room for `str_size` characters.
unfoldable pub bytes_to_hex : List ℕ → ℕ → Outcome (List ℕ)
unfolding hex_digits
bytes_to_hex bytes str_size = do
  assert (leb (length bytes * 2 + 1) str_size)
  done (hex_digits bytes ++ 0 ∷ [])

-- The loop of ch_random_ints_as_bytes on a platform whose rand gives 31 bits, with `n` rounds left:
-- `rand i` is the result of the i-th call.
unfoldable pub random_ints : (ℕ → ℕ) → ℕ → ℕ → List ℕ
random_ints rand zero i = []
random_ints rand (suc n) i = le32 (rand i) ++ random_ints rand n (i + 1)

-- ch_random_ints_as_bytes: what is written to a buffer of `len` bytes.
unfoldable pub random_ints_as_bytes : (ℕ → ℕ) → ℕ → Outcome (List ℕ)
unfolding random_ints
random_ints_as_bytes rand len = do assert (len % 4 == 0); done (random_ints rand (len / 4) 0)
