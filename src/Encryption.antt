-- ===== src/Encryption.antt =====
-- src/encryption.c: the reference count on the OpenSSL library and the context of a chirp object.
-- The objects of OpenSSL and the open file are counted; what OpenSSL and fopen answer is a
-- parameter. The options that are only set on the context are left out.
pub mod Balance
pub mod Tests
use c4irp.Prelude.{◌+◌, Bool, true, false, not, if◌then◌else◌}
use c4irp.Prelude.Int.{ℤ, ◌+ℤ◌, ◌-ℤ◌, is_zero}
use c4irp.Types.{ErrorCode, success, tls_error}

-- The two variables of the file, the state of the library and what is allocated.
pub record Library : Type 0 where
  pub manual : Bool  -- _ch_en_manual_openssl
  pub ref_count : ℤ  -- _ch_en_openssl_ref_count, an int
  pub loaded : Bool
  pub contexts : ℤ  -- the SSL_CTX that are not freed
  pub params : ℤ  -- the DH that are not freed

-- Which of the calls of ch_en_start give what it needs, in the order of the calls.
pub record Answers : Type 0 where
  pub method : Bool
  pub context : Bool
  pub locations : Bool
  pub certificate : Bool
  pub key : Bool
  pub key_checked : Bool
  pub params_opened : Bool
  pub params_read : Bool
  pub params_set : Bool
  pub ciphers_set : Bool

-- ch_en_openssl_init and ch_en_openssl_uninit
unfoldable pub openssl_init : Library → Library × ErrorCode
openssl_init l = (record l { loaded = true }, success)

unfoldable pub openssl_uninit : Library → Library × ErrorCode
openssl_uninit l = (record l { loaded = false }, success)

-- ch_en_set_manual_openssl_init
unfoldable pub set_manual_openssl_init : Library → Library
set_manual_openssl_init l = record l { manual = true }

-- The context and the parameters that ch_en_start makes, once the library is there.
create : Answers → Library → Library × ErrorCode
create a l =
    let made = record l { contexts = l.contexts +ℤ 1 } in
    let read = record made { params = l.params +ℤ 1 } in
    if not a.method
    then (l, tls_error)
    else if not a.context
    then (l, tls_error)
    else if not a.locations
    then (made, tls_error)
    else if not a.certificate
    then (made, tls_error)
    else if not a.key
    then (made, tls_error)
    else if not a.key_checked
    then (made, tls_error)
    else if not a.params_opened
    then (made, tls_error)
    else if not a.params_read
    then (made, tls_error)
    else if not a.params_set
    then (read, tls_error)
    else if not a.ciphers_set
    then (read, tls_error)
    else (read, success)

-- The reference that ch_en_start takes. ch_en_openssl_init, which it calls at every start, has no
-- other result than CH_SUCCESS.
take_reference : Library → Library
unfolding openssl_init
take_reference l =
    if l.manual then l else (openssl_init (record l { ref_count = l.ref_count +ℤ 1 })).0

-- ch_en_start
unfoldable pub start : Answers → Library → Library × ErrorCode
unfolding create take_reference
start a l = create a (take_reference l)

-- SSL_CTX_free and the return of ch_en_stop
free_context : Library → Library × ErrorCode
free_context l = (record l { contexts = l.contexts -ℤ 1 }, success)

-- ch_en_stop
unfoldable pub stop : Library → Library × ErrorCode
unfolding openssl_uninit free_context
stop l =
    let dropped = record l { ref_count = l.ref_count -ℤ 1 } in
    if l.manual
    then free_context l
    else if is_zero dropped.ref_count
    then openssl_uninit dropped
    else free_context dropped
