-- ===== src/Prelude/Bytes.antt =====
-- Unsigned integers in memory, lowest byte first, and the byte orders of the network. The host is
-- little-endian, as every platform in the build scripts is.
use Prim.Native.Nat.{ℕ, ◌+◌, ◌*◌, ◌/◌, ◌%◌, ◌^◌, ◌<◌, ◌≤◌}
use mathlib.Core.Path.{◌≡◌}
use mathlib.Core.List.{List, [], ◌∷◌}
use native.Mathlib.Omega.{arith}
use c4irp.Prelude.Lists.{length, take, drop, length-take, length-drop}

abbrev pub le16 : ℕ → List ℕ
le16 x = x % 256 ∷ x / 256 ∷ []

abbrev pub le32 : ℕ → List ℕ
le32 x = x % 256 ∷ x / 256 % 256 ∷ x / 65536 % 256 ∷ x / 16777216 ∷ []

abbrev pub from_le : List ℕ → ℕ
from_le [] = 0
from_le (b ∷ bs) = b + 256 * from_le bs

-- htons and ntohs, htonl and ntohl.
abbrev pub swap16 : ℕ → ℕ
swap16 x = x % 256 * 256 + x / 256

abbrev pub swap32 : ℕ → ℕ
swap32 x = x % 256 * 16777216 + x / 256 % 256 * 65536 + x / 65536 % 256 * 256 + x / 16777216

-- The bytes from `n` on, `count` of them.
abbrev pub slice {ℓ} : {A : Type ℓ} → ℕ → ℕ → List A → List A
slice n count bs = take count (drop n bs)

pub swap16-swap16 : (x : ℕ) → x < 2 ^ 16 → swap16 (swap16 x) ≡ x
swap16-swap16 x h = omega arith

pub swap32-swap32 : (x : ℕ) → x < 2 ^ 32 → swap32 (swap32 x) ≡ x
swap32-swap32 x h = omega arith

pub from_le-le16 : (x : ℕ) → from_le (le16 x) ≡ x
from_le-le16 x = omega arith

pub from_le-le32 : (x : ℕ) → from_le (le32 x) ≡ x
from_le-le32 x = omega arith

pub length-slice : (n k : ℕ) (bs : List ℕ) → n + k ≤ length bs → length (slice n k bs) ≡ k
length-slice n k bs h = omega (arith, length-take k (drop n bs), length-drop n bs)
