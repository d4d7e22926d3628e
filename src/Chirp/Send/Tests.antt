-- ===== src/Chirp/Send/Tests.antt =====
-- A message to the connection that is in the tree, found by a search from the front.
use c4irp.Prelude.{
  ℕ, ◌≡◌, ◌≢◌, ◌⊎◌, inl, inr, refl, true, false, Bool, List, [], ◌∷◌, none, some, Option, length,
  arith, Bool-cases, if◌then◌else◌, sym,
}
use c4irp.Prelude.Int.{ℤ, pos, negsuc, is_zero}
use c4irp.Prelude.Outcome.{done, ◌>>=◌}
use c4irp.World.{Connection}
use c4irp.Connection.Compare.{connection_cmp, key_of, IsAddressed}
use c4irp.Connection.Write.{write}
use c4irp.Connection.Shutdown.{shutdown}
use c4irp.Writer.{send}
use c4irp.Chirp.Send.{with_serial, chirp_send}
use c4irp.Chirp.Send.Lookup.{IsIn, Finds, message_key, HasReceiver, chirp_send_lookup}
use c4irp.Samples.{
  first_difference, first_difference-Documented, sample_env, sample_connection, sample_chirp,
  sample_message,
}

abbrev is_equal : Option ℤ → Bool
is_equal none = false
is_equal (some r) = is_zero r

is_equal_zero : (o : Option ℤ) → is_equal o ≡ true → o ≡ some (pos 0)
is_equal_zero none h = absurd (ground (arith, h))
is_equal_zero (some (pos n)) h = ground (arith, h)
is_equal_zero (some (negsuc n)) h = absurd (ground (arith, h))

abbrev from_front : List Connection → Connection → Option Connection
from_front [] x = none
from_front (c ∷ cs) x =
    let rest = from_front cs x in
    if is_equal (connection_cmp first_difference x c) then some c else rest

from_front-found :
    (cs : List Connection) (x c : Connection)
    → from_front cs x ≡ some c
    → IsIn c cs × (connection_cmp first_difference x c ≡ some (pos 0))
from_front-found [] x c h = absurd (ground (arith, h))
from_front-found (d ∷ cs) x c h =
    elim (Bool-cases (is_equal (connection_cmp first_difference x d))) [
      | inl e ↦
          let same : d ≡ c = ground (arith, h, e) in
          (inl (sym same), rw (← same) (is_equal_zero _ e))
      | inr e ↦ let (inside, equal) = from_front-found cs x c (rw e at h) in (inr inside, equal)
    ]

from_front-missing :
    (cs : List Connection) (x : Connection)
    → from_front cs x ≡ none
    → (c : Connection) → IsIn c cs
    → connection_cmp first_difference x c ≢ some (pos 0)
from_front-missing [] x h c inside = absurd inside
from_front-missing (d ∷ cs) x h c (inl same) = λ equal.
    let hit : is_equal (connection_cmp first_difference x d) ≡ true = rw (← same, equal) refl in
    ground (arith, h, hit)
from_front-missing (d ∷ cs) x h c (inr inside) =
    elim (Bool-cases (is_equal (connection_cmp first_difference x d))) [
      | inl e ↦ absurd (ground (arith, h, e))
      | inr e ↦ from_front-missing cs x (rw e at h) c inside
    ]

abbrev only : List Connection
only = sample_connection ∷ []

only-Finds : Finds first_difference from_front only
only-Finds = record { found = from_front-found only; missing = from_front-missing only }

only-IsAddressed : (c : Connection) → IsIn c only → IsAddressed c
only-IsAddressed c (inl same) =
    rw same (record { small = omega arith; bytes = refl; tcp = refl; word = omega arith })
only-IsAddressed c (inr outside) = absurd outside

has_receiver : HasReceiver sample_message
has_receiver = record { small = omega arith; bytes = refl; tcp = refl; word = omega arith }

chirp_send_lookup_example :
    (serial : List ℕ) × (length serial ≡ 16)
    × (((c : Connection) × IsIn c only
          × (key_of c ≡ message_key sample_message)
          × (chirp_send sample_env 9
                (λ i. i)
                from_front
                sample_connection
                only
                sample_chirp
                []
                sample_message
                true
              ≡ (send sample_env
                    (shutdown sample_env 9 2)
                    (write sample_env (shutdown sample_env 9 2) 9)
                    (with_serial serial sample_message)
                    true
                    (record { conn = c; chirp = sample_chirp; trace = [] })
                  >>= λ r. done (with_serial serial sample_message, some r.1))))
        ⊎ (((c : Connection) → IsIn c only → key_of c ≢ message_key sample_message)
            × (chirp_send sample_env 9
                  (λ i. i)
                  from_front
                  sample_connection
                  only
                  sample_chirp
                  []
                  sample_message
                  true
                ≡ done (with_serial serial sample_message, none))))
chirp_send_lookup_example =
    chirp_send_lookup sample_connection refl sample_message has_receiver first_difference
      first_difference-Documented from_front only only-Finds only-IsAddressed sample_env 9 (λ i. i)
      sample_chirp [] true
