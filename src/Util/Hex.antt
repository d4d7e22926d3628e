-- ===== src/Util/Hex.antt =====
-- ch_bytes_to_hex of src/util.h against a reading of hexadecimal text.
use c4irp.Prelude.{
  ℕ, ◌+◌, ◌*◌, ◌-◌, ◌/◌, ◌%◌, ◌≤◌, ◌<◌, ◌≡◌, refl, List, [], ◌∷◌, ◌++◌, length, leb, if◌then◌else◌,
  arith,
}
use c4irp.Prelude.Outcome.{done}
use c4irp.Util.{hex_digit, hex_digits, bytes_to_hex}

-- The value of an upper-case hexadecimal digit, and the bytes that pairs of digits stand for.
abbrev digit_value : ℕ → ℕ
digit_value c = if leb c b'9' then c - b'0' else c - b'A' + 10

abbrev pub read_hex : List ℕ → List ℕ
read_hex [] = []
read_hex (c ∷ []) = []
read_hex (c ∷ (d ∷ cs)) = (digit_value c * 16 + digit_value d) ∷ read_hex cs

abbrev pub AreBytes : List ℕ → Type 0
AreBytes [] = Unit {0}
AreBytes (b ∷ bs) = (b < 256) × AreBytes bs

digit_back : (d : ℕ) → d < 16 → digit_value (hex_digit d) ≡ d
unfolding hex_digit
digit_back d h = ground arith

joined : (b : ℕ) → b / 16 * 16 + b % 16 ≡ b
joined b = omega arith

read_back : (bs : List ℕ) → AreBytes bs → read_hex (hex_digits bs) ≡ bs
unfolding hex_digits
read_back [] h = refl
read_back (b ∷ bs) (h, hs) =
    rw
      (
        digit_back (b / 16) (omega arith),
        digit_back (b % 16) (omega arith),
        read_back bs hs,
        joined b,
      )
      refl

length_digits : (bs : List ℕ) → length (hex_digits bs) ≡ length bs * 2
unfolding hex_digits
length_digits [] = refl
length_digits (b ∷ bs) = let rest = length_digits bs in ground arith

-- With room for two digits a byte and the zero, ch_bytes_to_hex returns, and what it writes is that
-- zero behind digits, two for each byte, that read back as the bytes.
pub bytes_to_hex-read_hex :
    (bytes : List ℕ) (str_size : ℕ)
    → AreBytes bytes
    → length bytes * 2 + 1 ≤ str_size
    → (digits : List ℕ) × (bytes_to_hex bytes str_size ≡ done (digits ++ 0 ∷ []))
      × (length digits ≡ length bytes * 2)
      × (read_hex digits ≡ bytes)
unfolding bytes_to_hex
bytes_to_hex-read_hex bytes str_size h room =
    (hex_digits bytes, ground arith, length_digits bytes, read_back bytes h)
