-- ===== src/Util/Tests.antt =====
-- The helpers at 0x5000 and at three bytes.
use c4irp.Prelude.{ℕ, ◌-◌, ◌^◌, ◌≤◌, ◌<◌, ◌≡◌, List, [], ◌∷◌, ◌++◌, length, arith}
use c4irp.Prelude.Outcome.{done}
use c4irp.Util.{msb32, bytes_to_hex}
use c4irp.Util.Memory
use c4irp.Util.Memory.{Memory, Hooks, alloc_by}
use c4irp.Util.Msb.{msb32_bounds}
use c4irp.Util.Hex.{read_hex, bytes_to_hex-read_hex}

msb32_bounds_example :
    (r : ℕ) × (msb32 0x5000 ≡ done r)
    × (1 ≤ r)
    × (r ≤ 32)
    × (2 ^ (r - 1) ≤ 0x5000)
    × (0x5000 < 2 ^ r)
msb32_bounds_example = msb32_bounds 0x5000 (omega arith) (omega arith)

abbrev three_bytes : List ℕ
three_bytes = 0 ∷ 0xAB ∷ 255 ∷ []

bytes_to_hex-read_hex_example :
    (digits : List ℕ) × (bytes_to_hex three_bytes 7 ≡ done (digits ++ 0 ∷ []))
    × (length digits ≡ 6)
    × (read_hex digits ≡ three_bytes)
bytes_to_hex-read_hex_example =
    bytes_to_hex-read_hex three_bytes 7 (omega arith, (omega arith, (omega arith, tt)))
      (omega arith)

-- One block of an allocator with the functions 7, 8 and 9, which the C library's was replaced by.
data IsKnown : ℕ → ℕ → ℕ → Type 0 where
  c_library : IsKnown 0 0 0
  own : IsKnown 7 8 9

abbrev own_hooks : Hooks
own_hooks = record { alloc_cb = 7; realloc_cb = 8; free_cb = 9 }

abbrev one_block : Memory
one_block = record { hooks = own_hooks; calls = alloc_by 7 16 ∷ [] }
