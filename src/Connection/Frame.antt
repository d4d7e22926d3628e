-- ===== src/Connection/Frame.antt =====
-- What the reader, the writer, the shutdown and the protocol leave alone: they write to the wire
-- only through ch_cn_write and ch_cn_send_if_pending, so whatever these two keep is kept by all.
use c4irp.Prelude.{
  ℕ, ◌+◌, ◌-◌, ◌≤◌, ◌≡◌, ◌&&◌, Bool, true, false, not, List, arith, ◌⊎◌, inl, inr, ltb, Bool-cases,
  if◌then◌else◌,
}
use mathlib.Core.Path.{subst}
use c4irp.World.{State, Connection, Call, uv_shutdown, bio_read, ssl_read}
use c4irp.World.Monad.{M, ◌>>=◌, get_conn, set_conn, call, ask}
use c4irp.World.Keeps.{keeps, Keeps}
use c4irp.Connection.InFlight.{is_apart}
use c4irp.Connection.Memory.{owned, is_idle}

-- A call that concerns neither a write request nor what the connection owns, and after which libuv
-- owes no callback of a shutdown.
abbrev pub is_shutdown : Call → Bool
is_shutdown uv_shutdown = true
is_shutdown _ = false

abbrev pub is_light : Call → Bool
is_light c = is_idle c && not (is_shutdown c)

abbrev pub is_plain : Call → Bool
is_plain c = is_apart c && is_light c

-- A predicate that looks only at the write request and at what the connection owns.
pub record Frame (P : State → Type 0) : Type 1 where
  pub plain_set :
      (f : Connection → Connection)
      → ((c : Connection) → owned (f c) ≡ owned c)
      → ((c : Connection) → (f c).flags.write_pending ≡ c.flags.write_pending)
      → Keeps P (set_conn f)
  pub plain_ask :
      {A : Type 0} (answer : List Call → A) (c : Call) → is_plain c ≡ true → Keeps P (ask answer c)
  pub plain_call : (c : Call) → is_plain c ≡ true → Keeps P (call c)

-- A predicate that does not look at the write request either, and lets OpenSSL write into the buffers
-- as far as they have room. `Room` is what it knows of the connection, and `Within` tells how far
-- from the start of a buffer OpenSSL may write.
pub record Wide (P : State → Type 0) (Room : Connection → Type 0) : Type 1 where
  pub wide_set :
      (f : Connection → Connection)
      → ((c : Connection) → owned (f c) ≡ owned c)
      → Keeps P (set_conn f)
  pub wide_ask :
      {A : Type 0} (answer : List Call → A) (c : Call) → is_light c ≡ true → Keeps P (ask answer c)
  pub wide_call : (c : Call) → is_light c ≡ true → Keeps P (call c)
  pub wide_get :
      {A : Type 0} {f : Connection → M A}
      → ((c : Connection) → Room c → Keeps P (f c))
      → Keeps P (get_conn >>= f)
  pub Within : ℕ → Type 0
  pub wide_start : Within 0
  pub wide_room : (c : Connection) (n : ℕ) → Room c → n ≤ c.buffer_size → Within n
  pub wide_bio_read :
      {A : Type 0} (answer : List Call → A) (at n : ℕ)
      → Within (at + n)
      → Keeps P (ask answer (bio_read at n))
  pub wide_ssl_read :
      {A : Type 0} (c : Connection) (answer : List Call → A) (n : ℕ)
      → Room c
      → n ≤ c.buffer_size
      → Keeps P (ask answer (ssl_read n))

le_or_ge : (m n : ℕ) → (m ≤ n) ⊎ (n ≤ m)
le_or_ge m n = elim (Bool-cases (ltb n m)) [
  | inl e ↦ inr (ground arith)
  | inr e ↦ inl (ground arith)
]

module _ {P : State → Type 0} (fr : Frame P) where
  pub Frame-set_conn :
      (f : Connection → Connection)
      → ((c : Connection) → owned (f c) ≡ owned c)
      → ((c : Connection) → (f c).flags.write_pending ≡ c.flags.write_pending)
      → Keeps P (set_conn f)
  Frame-set_conn = fr.plain_set

  pub Frame-ask :
      {A : Type 0} (answer : List Call → A) (c : Call) → is_plain c ≡ true → Keeps P (ask answer c)
  Frame-ask = fr.plain_ask

  pub Frame-call : (c : Call) → is_plain c ≡ true → Keeps P (call c)
  Frame-call = fr.plain_call

module _ {P : State → Type 0} {Room : Connection → Type 0} (w : Wide P Room) where
  pub Wide-set_conn :
      (f : Connection → Connection)
      → ((c : Connection) → owned (f c) ≡ owned c)
      → Keeps P (set_conn f)
  Wide-set_conn = w.wide_set

  pub Wide-ask :
      {A : Type 0} (answer : List Call → A) (c : Call) → is_light c ≡ true → Keeps P (ask answer c)
  Wide-ask = w.wide_ask

  pub Wide-call : (c : Call) → is_light c ≡ true → Keeps P (call c)
  Wide-call = w.wide_call

  pub Wide-get_conn :
      {A : Type 0} {f : Connection → M A}
      → ((c : Connection) → Room c → Keeps P (f c))
      → Keeps P (get_conn >>= f)
  Wide-get_conn = w.wide_get

  pub Wide-bio_read :
      {A : Type 0} (c : Connection) (answer : List Call → A)
      → Room c
      → Keeps P (ask answer (bio_read 0 c.buffer_size))
  Wide-bio_read c answer r =
      w.wide_bio_read answer 0 c.buffer_size (w.wide_room c (0 + c.buffer_size) r (omega arith))

  -- From a place in the buffer on, all of the rest may be written.
  pub Wide-bio_read_rest :
      {A : Type 0} (c : Connection) (answer : List Call → A) (at : ℕ)
      → Room c
      → w.Within at
      → Keeps P (ask answer (bio_read at (c.buffer_size - at)))
  Wide-bio_read_rest c answer at r inside =
      w.wide_bio_read answer at (c.buffer_size - at) (elim (le_or_ge at c.buffer_size) [
        | inl le ↦ w.wide_room c (at + (c.buffer_size - at)) r (omega arith)
        | inr ge ↦ subst (λ n. w.Within n) (omega arith) inside
      ])

  -- The loop goes on only where there is room.
  pub Wide-again :
      {A : Type 0} (c : Connection) (b : Bool) (n : ℕ) {m k : M A}
      → Room c
      → (w.Within n → Keeps P m)
      → Keeps P k
      → Keeps P (if b && ltb n c.buffer_size then m else k)
  Wide-again c false n r h g = g
  Wide-again c true n r h g = elim (Bool-cases (ltb n c.buffer_size)) [
    | inl e ↦ rw e (h (w.wide_room c n r (ground arith)))
    | inr e ↦ rw e g
  ]

  pub Wide-ssl_read :
      {A : Type 0} (c : Connection) (answer : List Call → A) (n : ℕ)
      → Room c
      → n ≤ c.buffer_size
      → Keeps P (ask answer (ssl_read n))
  Wide-ssl_read = w.wide_ssl_read

light_of_plain : (c : Call) → is_plain c ≡ true → is_light c ≡ true
light_of_plain c h = ground arith

pub Wide-Frame : {P : State → Type 0} {Room : Connection → Type 0} → Wide P Room → Frame P
Wide-Frame w = record {
  plain_set = λ f same pending. w.wide_set f same;
  plain_ask = λ answer c h. w.wide_ask answer c (light_of_plain c h);
  plain_call = λ c h. w.wide_call c (light_of_plain c h);
}

pub all_room : (n : ℕ) → n ≤ n
all_room n = omega arith

pub ruleset frame = (keeps, Frame-set_conn, Frame-ask, Frame-call)

pub ruleset wide = (
  Wide-get_conn, keeps, Wide-set_conn, Wide-ask, Wide-call, Wide-bio_read, Wide-ssl_read, all_room,
)
