-- ===== src/Encryption/Balance.antt =====
-- What starts and stops of the encryption leave behind.
use c4irp.Prelude.{ℕ, ◌+◌, ◌≡◌, ◌↔◌, refl, Bool, true, false, ◌&&◌, if◌then◌else◌, ◌==◌, arith}
use c4irp.Prelude.Int.{pos, ◌+ℤ◌}
use c4irp.Types.{success}
use c4irp.Encryption.{
  Library, Answers, start, stop, create, take_reference, openssl_init, openssl_uninit, free_context,
}

-- Whether every call that ch_en_start makes of OpenSSL and fopen gives what it needs.
abbrev pub all_given : Answers → Bool
all_given a =
    a.method && a.context && a.locations && a.certificate && a.key && a.key_checked
    && a.params_opened && a.params_read && a.params_set && a.ciphers_set

module _ (a : Answers) (l : Library) where
  -- ch_en_start returns CH_SUCCESS exactly when all the calls that it makes of OpenSSL and fopen give
  -- what it needs, whatever was counted before.
  pub start-success_iff : (start a l).1 ≡ success ↔ all_given a ≡ true
  unfolding start create
  start-success_iff = ground arith

  pub start_counts :
      ((start a l).0.ref_count ≡ (if l.manual then l.ref_count else l.ref_count +ℤ 1))
      × ((start a l).0.contexts ≡ (if a.method && a.context then l.contexts +ℤ 1 else l.contexts))
  unfolding start create take_reference openssl_init
  start_counts = ground arith

  taken :
      l.manual ≡ false → take_reference l ≡ record l { ref_count = l.ref_count +ℤ 1; loaded = true }
  unfolding take_reference openssl_init
  taken own = rw own refl

  created :
      (k : Library)
      → all_given a ≡ true
      → create a k ≡ (record k { contexts = k.contexts +ℤ 1; params = k.params +ℤ 1 }, success)
  unfolding create
  created k given = ground arith

  -- Where chirp counts the references to OpenSSL itself, a successful ch_en_start and then
  -- ch_en_stop bring the counter of references back to n, and both succeed. With no other
  -- reference left the library is unloaded, and the context of the start is not freed; otherwise
  -- it is.
  pub start-stop :
      (n m : ℕ)
      → l.manual ≡ false
      → l.ref_count ≡ pos n
      → l.contexts ≡ pos m
      → all_given a ≡ true
      → ((start a l).1 ≡ success)
        × (stop (start a l).0 ≡ (
          record l {
            loaded = if n == 0 then false else true;
            contexts = if n == 0 then pos (m + 1) else pos m;
            params = l.params +ℤ 1;
          },
          success,
        ))
  unfolding start create take_reference openssl_init stop openssl_uninit free_context
  start-stop n m own k c given =
      rw (created (take_reference l) given, taken own, own, k, c) (refl, ground arith)
