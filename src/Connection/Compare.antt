-- ===== src/Connection/Compare.antt =====
-- src/connection.h: ch_connection_cmp, by which the tree of connections is ordered, and the order
-- that it is meant to be.
--
-- `memcmp` is the one of the C library.
pub mod Order
use Prim.Native.Nat.{compare, Ordering}
use Prim.Native.Nat.Ordering.{lt, eq, gt}
use c4irp.Prelude.{
  ℕ, ◌^◌, ◌<◌, ◌≤◌, ◌≡◌, List, [], ◌∷◌, Option, none, some, ltb, ◌==◌, if◌then◌else◌, length, take,
}
use c4irp.Prelude.Int.{ℤ, pos, negsuc, is_zero, pos_part, sub_ℤ}
use c4irp.Types.{ipv6}
use c4irp.World.{Connection}

-- The value of an expression of type int; outside of its range the code is undefined.
abbrev to_int : ℤ → Option ℤ
to_int (pos n) = if ltb n (2 ^ 31) then some (pos n) else none
to_int (negsuc n) = if ltb n (2 ^ 31) then some (negsuc n) else none

-- How many bytes of the address count.
abbrev pub address_length : ℕ → ℕ
address_length protocol = if protocol == ipv6 then 16 else 4

-- ch_connection_cmp
unfoldable pub connection_cmp : (List ℕ → List ℕ → ℕ → ℤ) → Connection → Connection → Option ℤ
connection_cmp memcmp x y =
    if x.ip_protocol == y.ip_protocol
    then (let tmp_cmp = memcmp x.address y.address (address_length x.ip_protocol) in
        if is_zero tmp_cmp then to_int (sub_ℤ x.port y.port) else some tmp_cmp)
    else to_int (sub_ℤ (pos x.ip_protocol) (pos y.ip_protocol))

-- What tells two connections apart.
pub record Key : Type 0 where
  pub protocol : ℕ
  pub host : List ℕ
  pub port : ℕ

abbrev pub key_of : Connection → Key
key_of c = record {
  protocol = c.ip_protocol;
  host = take (address_length c.ip_protocol) c.address;
  port = pos_part c.port;
}

-- What holds of the fields by their types, and the port is one of TCP.
pub record IsAddressed (c : Connection) : Type 0 where
  pub small : c.ip_protocol < 256
  pub bytes : length c.address ≡ 16
  pub tcp : c.port ≡ pos (pos_part c.port)
  pub word : pos_part c.port < 2 ^ 16

abbrev pub and_then : Ordering → Ordering → Ordering
and_then eq second = second
and_then lt second = lt
and_then gt second = gt

-- The first byte that differs decides, and an end comes before any byte.
unfoldable pub bytes_order : List ℕ → List ℕ → Ordering
bytes_order [] [] = eq
bytes_order [] (b ∷ bs) = lt
bytes_order (a ∷ rest) [] = gt
bytes_order (a ∷ rest) (b ∷ bs) = and_then (compare a b) (bytes_order rest bs)

unfoldable pub key_order : Key → Key → Ordering
key_order x y =
    and_then (compare x.protocol y.protocol)
      (and_then (bytes_order x.host y.host) (compare x.port y.port))

-- How the result of a comparison is read.
abbrev pub sign : ℤ → Ordering
sign (negsuc n) = lt
sign (pos n) = if n == 0 then eq else gt

-- What the C library documents of memcmp, for arrays of at least `n` bytes.
abbrev pub Documented : (List ℕ → List ℕ → ℕ → ℤ) → Type 0
Documented memcmp =
    (a b : List ℕ) (n : ℕ)
    → n ≤ length a
    → n ≤ length b
    → sign (memcmp a b n) ≡ bytes_order (take n a) (take n b)
