-- ===== src/Connection/Compare/Order.antt =====
-- ch_connection_cmp is the order of the keys, and that order is total.
use Prim.Native.Nat.{compare, Ordering}
use Prim.Native.Nat.Ordering.{lt, eq, gt}
use c4irp.Prelude.{
  ℕ, zero, suc, ◌^◌, ◌<◌, ◌≡◌, ◌↔◌, refl, List, [], ◌∷◌, Option, some, ◌==◌, if◌then◌else◌, arith,
  Bool-cases, inl, inr,
}
use c4irp.Prelude.Int.{ℤ, pos, negsuc, is_zero, pos_part, sub_ℤ}
use c4irp.World.{Connection}
use c4irp.Connection.Compare.{
  to_int, address_length, connection_cmp, Key, key_of, IsAddressed, and_then, bytes_order,
  key_order, sign, Documented,
}

-- The difference of two small numbers tells their order.
difference :
    (m n : ℕ)
    → m < 2 ^ 16
    → n < 2 ^ 16
    → (r : ℤ) × (to_int (sub_ℤ (pos m) (pos n)) ≡ some r) × (sign r ≡ compare m n)
difference m n hm hn = (sub_ℤ (pos m) (pos n), ground arith, ground arith)

-- The addresses decide, and the ports where the addresses are alike.
then_ports :
    (c : ℤ) (o : Ordering) (m n : ℕ)
    → m < 2 ^ 16
    → n < 2 ^ 16
    → sign c ≡ o
    → (r : ℤ) × ((if is_zero c then to_int (sub_ℤ (pos m) (pos n)) else some c) ≡ some r)
      × (sign r ≡ and_then o (compare m n))
then_ports (negsuc k) o m n hm hn e = (negsuc k, refl, ground (arith, e))
then_ports (pos zero) o m n hm hn e =
    let (r, a, b) = difference m n hm hn in (r, a, ground (arith, e, b))
then_ports (pos (suc k)) o m n hm hn e = (pos (suc k), ground arith, ground (arith, e))

-- The protocols decide, and what follows where they are alike.
then_rest :
    (m n : ℕ) (rest : Option ℤ) (o : Ordering)
    → m < 2 ^ 16
    → n < 2 ^ 16
    → (m ≡ n → (r : ℤ) × (rest ≡ some r) × (sign r ≡ o))
    → (r : ℤ) × ((if m == n then rest else to_int (sub_ℤ (pos m) (pos n))) ≡ some r)
      × (sign r ≡ and_then (compare m n) o)
then_rest m n rest o hm hn h = elim (Bool-cases (m == n)) [
  | inl same ↦
      let (r, a, b) = h (ground (arith, same)) in
      (r, ground (arith, a, same), ground (arith, b, same))
  | inr other ↦
      let (r, a, b) = difference m n hm hn in
      (r, ground (arith, a, other), ground (arith, b, other))
]

module _ (memcmp : List ℕ → List ℕ → ℕ → ℤ) (doc : Documented memcmp) where
  -- For a memcmp that does what the C library documents, and two connections with the field sizes of
  -- their types and ports of TCP, ch_connection_cmp does not overflow, and the sign of its result is
  -- the order of the keys: first the protocols, then the 16 or 4 bytes of the addresses, then the
  -- ports.
  pub connection_cmp-key_order :
      (x y : Connection)
      → IsAddressed x
      → IsAddressed y
      → (r : ℤ) × (connection_cmp memcmp x y ≡ some r) × (sign r ≡ key_order (key_of x) (key_of y))
  unfolding connection_cmp key_order
  connection_cmp-key_order x y hx hy =
      then_rest x.ip_protocol y.ip_protocol _ _ (omega (arith, hx.small)) (omega (arith, hy.small))
        λ same.
          let n = address_length x.ip_protocol in
          let hosts : sign (memcmp x.address y.address n)
              ≡ bytes_order (key_of x).host (key_of y).host =
            rw (← same)
              (doc x.address y.address n (ground (arith, hx.bytes)) (ground (arith, hy.bytes))) in
          rw (hx.tcp, hy.tcp)
            (then_ports (memcmp x.address y.address n) _ (pos_part x.port) (pos_part y.port) hx.word
              hy.word hosts)

bytes_order_refl : (a : List ℕ) → bytes_order a a ≡ eq
unfolding bytes_order
bytes_order_refl [] = refl
bytes_order_refl (x ∷ a) = ground (arith, bytes_order_refl a)

bytes_order-eq : (a b : List ℕ) → bytes_order a b ≡ eq → a ≡ b
unfolding bytes_order
bytes_order-eq [] [] e = refl
bytes_order-eq [] (y ∷ b) e = ground (arith, e)
bytes_order-eq (x ∷ a) [] e = ground (arith, e)
bytes_order-eq (x ∷ a) (y ∷ b) e = ground (arith, e, bytes_order-eq a b)

-- The order the other way round.
abbrev pub flip : Ordering → Ordering
flip lt = gt
flip eq = eq
flip gt = lt

bytes_order-flip : (a b : List ℕ) → bytes_order b a ≡ flip (bytes_order a b)
unfolding bytes_order
bytes_order-flip [] [] = refl
bytes_order-flip [] (y ∷ b) = refl
bytes_order-flip (x ∷ a) [] = refl
bytes_order-flip (x ∷ a) (y ∷ b) = ground (arith, bytes_order-flip a b)

bytes_order_trans :
    (a b c : List ℕ) → bytes_order a b ≡ lt → bytes_order b c ≡ lt → bytes_order a c ≡ lt
unfolding bytes_order
bytes_order_trans [] [] c d e = ground (arith, d)
bytes_order_trans [] (y ∷ b) [] d e = ground (arith, e)
bytes_order_trans [] (y ∷ b) (z ∷ c) d e = refl
bytes_order_trans (x ∷ a) [] c d e = ground (arith, d)
bytes_order_trans (x ∷ a) (y ∷ b) [] d e = ground (arith, e)
bytes_order_trans (x ∷ a) (y ∷ b) (z ∷ c) d e =
    ground (arith, d, e, bytes_order_trans a b c, bytes_order-eq a b, bytes_order-eq b c)

-- A comparison that orders: its answer tells equality, its answer the other way round is flipped, and
-- it is transitive.
pub record IsOrder (A : Type 0) (order : A → A → Ordering) : Type 0 where
  pub order_eq : (a b : A) → (order a b ≡ eq) ↔ (a ≡ b)
  pub order_flip : (a b : A) → order b a ≡ flip (order a b)
  pub order_trans : (a b c : A) → order a b ≡ lt → order b c ≡ lt → order a c ≡ lt

pub key_order-IsOrder : IsOrder Key key_order
unfolding key_order
key_order-IsOrder = record {
  order_eq = λ a b. (
    λ e. ground (arith, e, bytes_order-eq a.host b.host),
    λ e. rw e (ground (arith, bytes_order_refl b.host)),
  );
  order_flip = λ a b. ground (arith, bytes_order-flip a.host b.host);
  order_trans = λ a b c d e. ground (
    arith,
    d,
    e,
    bytes_order_trans a.host b.host c.host,
    bytes_order-eq a.host b.host,
    bytes_order-eq b.host c.host,
  );
}

module _ (memcmp : List ℕ → List ℕ → ℕ → ℤ) (doc : Documented memcmp) where
  -- The sign of a result of ch_connection_cmp.
  pub sign_of :
      (x y : Connection) (r : ℤ)
      → IsAddressed x
      → IsAddressed y
      → connection_cmp memcmp x y ≡ some r
      → sign r ≡ key_order (key_of x) (key_of y)
  sign_of x y r hx hy e =
      let (r', e', ok) = connection_cmp-key_order memcmp doc x y hx hy in
      let same : r ≡ r' = ground (arith, e, e') in rw same ok

  -- For a memcmp that does what the C library documents, and connections with the field sizes of
  -- their types and ports of TCP, the results of ch_connection_cmp are those of a total order, as a
  -- red-black tree needs it: 0 for two connections with the same protocol, address and port and for no
  -- others, the other sign with the arguments the other way round, and transitive.
  pub connection_cmp_total :
      (x y z : Connection) (r r' s t : ℤ)
      → IsAddressed x
      → IsAddressed y
      → IsAddressed z
      → connection_cmp memcmp x y ≡ some r
      → connection_cmp memcmp y x ≡ some r'
      → connection_cmp memcmp y z ≡ some s
      → connection_cmp memcmp x z ≡ some t
      → ((sign r ≡ eq) ↔ (key_of x ≡ key_of y))
        × (sign r' ≡ flip (sign r))
        × (sign r ≡ lt → sign s ≡ lt → sign t ≡ lt)
  connection_cmp_total x y z r r' s t hx hy hz exy eyx eyz exz =
      let order = key_order-IsOrder in
      rw
        (
          sign_of x y r hx hy exy,
          sign_of y x r' hy hx eyx,
          sign_of y z s hy hz eyz,
          sign_of x z t hx hz exz,
        )
        (
          order.order_eq (key_of x) (key_of y),
          order.order_flip (key_of x) (key_of y),
          order.order_trans (key_of x) (key_of y) (key_of z),
        )
