-- ===== src/Message/Tests.antt =====
-- One address that libuv can read, and a protocol that is not known.
use c4irp.Prelude.{[], ◌∷◌, some}
use c4irp.Message.{Inet}

-- An outside with one address, "::", which it holds in one byte.
abbrev one_address : Inet
one_address = record { pton = λ af text. some (9 ∷ []); ntop = λ af bytes. some (58 ∷ 58 ∷ []) }
