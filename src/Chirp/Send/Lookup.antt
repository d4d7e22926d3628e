-- ===== src/Chirp/Send/Lookup.antt =====
-- A message goes out on the connection with its address, or on none.
use Prim.Native.Nat.Ordering.{eq}
use c4irp.Prelude.{
  ℕ, zero, suc, ◌≤◌, ◌≡◌, ◌≢◌, ◌⊎◌, inl, inr, refl, sym, ap, ◌∙◌, ◌<◌, ◌^◌, Bool, List, [], ◌∷◌,
  ◌++◌, Option, none, some, length, take, drop, arith, Option-cases, length-append, length-take,
  length-drop,
}
use c4irp.Prelude.Int.{ℤ, pos, negsuc, pos_part}
use c4irp.Prelude.Outcome.{done, ◌>>=◌}
use c4irp.Prelude.Outcome.Chains.{chain_assoc}
use c4irp.Util.Random.{random_ints_as_bytes-length}
use c4irp.World.{Env, Connection, Chirp, Message, Call}
use c4irp.Connection.Compare.{
  connection_cmp, Key, key_of, IsAddressed, Documented, sign, address_length,
}
use c4irp.Connection.Compare.Order.{sign_of, key_order-IsOrder, connection_cmp-key_order}
use c4irp.Connection.Write.{write}
use c4irp.Connection.Shutdown.{shutdown}
use c4irp.Writer.{send}
use c4irp.Chirp.Send.{search_conn, with_serial, send_on, chirp_send}

-- An element of a list.
abbrev pub IsIn : Connection → List Connection → Type 0
IsIn c [] = ⊥
IsIn c (d ∷ ds) = (c ≡ d) ⊎ IsIn c ds

-- What sglib documents of find_member: it gives an element that compares as 0 with what is searched
-- for, or NULL where there is none.
pub record Finds (memcmp : List ℕ → List ℕ → ℕ → ℤ)
    (find : List Connection → Connection → Option Connection) (cs : List Connection) : Type 0 where
  pub found :
      (x c : Connection)
      → find cs x ≡ some c
      → IsIn c cs × (connection_cmp memcmp x c ≡ some (pos 0))
  pub missing :
      (x : Connection)
      → find cs x ≡ none
      → (c : Connection) → IsIn c cs
      → connection_cmp memcmp x c ≢ some (pos 0)

-- What tells the receiver of a message.
abbrev pub message_key : Message → Key
message_key msg = record {
  protocol = msg.ip_protocol;
  host = take (address_length msg.ip_protocol) msg.address;
  port = pos_part msg.port;
}

-- What holds of the fields of a message by their types, and the port is one of TCP.
pub record HasReceiver (msg : Message) : Type 0 where
  pub small : msg.ip_protocol < 256
  pub bytes : length msg.address ≡ 16
  pub tcp : msg.port ≡ pos (pos_part msg.port)
  pub word : pos_part msg.port < 2 ^ 16

take-take_append : (n : ℕ) (xs ys : List ℕ) → n ≤ length xs → take n (take n xs ++ ys) ≡ take n xs
take-take_append zero xs ys h = refl
take-take_append (suc n) [] ys h = absurd (omega (arith, h))
take-take_append (suc n) (x ∷ xs) ys h =
    ap (λ (zs : List ℕ). x ∷ zs) (take-take_append n xs ys (omega (arith, h)))

address_length_bound : (p : ℕ) → address_length p ≤ 16
address_length_bound p = ground arith

sign-eq : (r : ℤ) → sign r ≡ eq → r ≡ pos 0
sign-eq (pos n) h = ground (arith, h)
sign-eq (negsuc n) h = absurd (ground (arith, h))

module _ (blank : Connection) (sized : length blank.address ≡ 16) (msg : Message)
    (to : HasReceiver msg) where
  key_of-search_conn : key_of (search_conn blank msg) ≡ message_key msg
  key_of-search_conn =
      let n = address_length msg.ip_protocol in
      ap (λ (h : List ℕ). record { protocol = msg.ip_protocol; host = h; port = pos_part msg.port })
        (take-take_append n msg.address (drop n blank.address)
          (omega (arith, address_length_bound msg.ip_protocol, to.bytes)))

  search_conn-IsAddressed : IsAddressed (search_conn blank msg)
  search_conn-IsAddressed =
      let n = address_length msg.ip_protocol in
      record {
        small = to.small;
        bytes = omega (
          arith,
          sized,
          to.bytes,
          address_length_bound msg.ip_protocol,
          length-append (take n msg.address) (drop n blank.address),
          length-take n msg.address,
          length-drop n blank.address,
        );
        tcp = to.tcp;
        word = to.word;
      }

  module _ (memcmp : List ℕ → List ℕ → ℕ → ℤ) (doc : Documented memcmp)
      (find : List Connection → Connection → Option Connection) (cs : List Connection)
      (finds : Finds memcmp find cs)
      (addressed : (c : Connection) → IsIn c cs → IsAddressed c) where
    found_key :
        (c : Connection)
        → find cs (search_conn blank msg) ≡ some c
        → IsIn c cs × (key_of c ≡ message_key msg)
    found_key c h =
        let x = search_conn blank msg in
        let (inside, equal) = finds.found x c h in
        let order =
          sign_of memcmp doc x c (pos 0) search_conn-IsAddressed (addressed c inside) equal in
        (
          inside,
          sym ((key_order-IsOrder.order_eq (key_of x) (key_of c)).0 (sym order))
              ∙ key_of-search_conn,
        )

    missing_key :
        find cs (search_conn blank msg) ≡ none
        → (c : Connection) → IsIn c cs
        → key_of c ≢ message_key msg
    missing_key h c inside same =
        let x = search_conn blank msg in
        let (r, at, order) =
          connection_cmp-key_order memcmp doc x c search_conn-IsAddressed (addressed c inside) in
        let alike =
          (key_order-IsOrder.order_eq (key_of x) (key_of c)).1 (key_of-search_conn ∙ sym same) in
        let zero_result = sign-eq r (order ∙ alike) in
        finds.missing x h c inside (at ∙ ap some zero_result)

    -- For a memcmp and a find_member that do what their libraries document, a message with a receiver
    -- and connections with the field sizes of their types and ports of TCP, ch_chirp_send gives the
    -- message 16 new bytes of serial number. Either one of the connections has the protocol, address
    -- and port of the message, and _ch_wr_send runs on it; or none has, and then nothing is sent and
    -- the callback is not called, though ch_chirp_send returns.
    pub chirp_send_lookup :
        (env : Env) (fuel : ℕ) (rand : ℕ → ℕ) (chirp : Chirp) (trace : List Call) (has_cb : Bool)
        → (serial : List ℕ) × (length serial ≡ 16)
          × (((c : Connection) × IsIn c cs
                × (key_of c ≡ message_key msg)
                × (chirp_send env fuel rand find blank cs chirp trace msg has_cb ≡ (
                    send env
                      (shutdown env fuel 2)
                      (write env (shutdown env fuel 2) fuel)
                      (with_serial serial msg)
                      has_cb
                      (record { conn = c; chirp = chirp; trace = trace })
                    >>= λ r. done (with_serial serial msg, some r.1))))
              ⊎ (((c : Connection) → IsIn c cs → key_of c ≢ message_key msg)
                  × (chirp_send env fuel rand find blank cs chirp trace msg has_cb
                      ≡ done (with_serial serial msg, none))))
    unfolding chirp_send send_on
    chirp_send_lookup env fuel rand chirp trace has_cb =
        let (serial, drawn, size) = random_ints_as_bytes-length rand 16 refl in
        (
          serial,
          size,
          elim (Option-cases (find cs (search_conn blank msg))) [
            | inl h ↦ inr (missing_key h, rw (drawn, h) refl)
            | inr (c, h) ↦
                let (inside, same) = found_key c h in
                let sent =
                  send env (shutdown env fuel 2) (write env (shutdown env fuel 2) fuel)
                    (with_serial serial msg) has_cb
                    (record { conn = c; chirp = chirp; trace = trace }) in
                inl (
                  c,
                  inside,
                  same,
                  rw (drawn, h)
                      (chain_assoc sent (λ r. done (some r.1))
                        (λ r. done (with_serial serial msg, r))),
                )
          ],
        )
