-- ===== src/Message/Address.antt =====
-- The address of a message: what is set is what is read.
use c4irp.Prelude.{ℕ, List, none, some, ◌≡◌, refl, ◌⊎◌, inl, inr}
use c4irp.Prelude.Int.{ℤ}
use c4irp.Types.{value_error}
use c4irp.World.{Message}
use c4irp.Message.{Inet, Family, family, written, convert, set_address}

module _ (inet : Inet) (m : Message) (ip_protocol : ℕ) (text : List ℕ) (port : ℤ) where
  -- A protocol that is not known, or a text that libuv cannot read, is CH_VALUE_ERROR; the message
  -- keeps its address and its port, but its protocol is already the new one.
  pub set_address_refused :
      ((family ip_protocol ≡ none)
        ⊎ ((af : Family) × (family ip_protocol ≡ some af) × (inet.pton af text ≡ none)))
      → set_address inet m ip_protocol text port
        ≡ (record m { ip_protocol = ip_protocol }, value_error)
  unfolding set_address written convert
  set_address_refused (inl unknown) = rw unknown refl
  set_address_refused (inr (af, known, unread)) = rw (known, unread) refl
