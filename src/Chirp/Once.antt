-- ===== src/Chirp/Once.antt =====
-- Closing a chirp object once: ch_chirp_close_ts, the signal handler and the end of a closing.
use c4irp.Prelude.{
  Bool-cases, inl, inr, ℕ, Bool, true, false, ◌≡◌, ◌≢◌, ap, not, ◌&&◌, refl, List, [], ◌∷◌, some,
  ◌==◌, if◌then◌else◌, arith, ◌||◌,
}
use c4irp.Prelude.Outcome.{done}
use c4irp.Prelude.Int.{ℤ, is_neg, ◌-ℤ◌}
use c4irp.Types.{success, uv_error, in_progress, fatal}
use c4irp.World.{Chirp}
use c4irp.Chirp.{
  Instance, Process, close_ts, close_internal, close_marked, sig_handler, closing_down, delete,
  sigint, sigterm,
}

-- An object that is initialized, and neither closing nor closed, with its data.
pub record IsOpen (chirp : Instance) (i : Chirp) : Type 0 where
  pub has_magic : chirp.initialized ≡ true
  pub has_data : chirp.internal ≡ some i
  pub not_closed : i.closed ≡ false
  pub not_closing : i.closing ≡ false

module _ (chirp : Instance) (i : Chirp) (h : IsOpen chirp i) (sent : ℤ) where
  closes : close_ts sent chirp ≡ (
    record chirp { internal = some (record i { closing = true }) },
    if is_neg sent then uv_error else success,
  )
  unfolding close_ts close_internal
  closes = rw (h.has_magic, h.has_data, h.not_closed, h.not_closing) refl

  closing_again :
      (sent' : ℤ)
      → close_ts sent' (record chirp { internal = some (record i { closing = true }) })
        ≡ (record chirp { internal = some (record i { closing = true }) }, in_progress)
  unfolding close_ts close_internal
  closing_again sent' = rw (h.has_magic, h.not_closed) refl

  -- The first ch_chirp_close_ts on an open object sets CH_CHIRP_CLOSING and returns what
  -- uv_async_send comes to; a second one returns CH_IN_PRORESS and changes nothing, even when the
  -- first could not send the request.
  pub close_ts_twice :
      (sent' : ℤ)
      → (close_ts sent chirp ≡ (
        record chirp { internal = some (record i { closing = true }) },
        if is_neg sent then uv_error else success,
      ))
        × (close_ts sent' (close_ts sent chirp).0 ≡ ((close_ts sent chirp).0, in_progress))
  close_ts_twice sent' = (closes, rw closes (closing_again sent'))

-- sglib's is_member on the tree of objects.
abbrev pub is_member : ℕ → List ℕ → Bool
is_member a [] = false
is_member a (b ∷ bs) = (a == b) || is_member a bs

delete_gone : (a : ℕ) (bs : List ℕ) → is_member a (delete a bs) ≡ false
unfolding delete
delete_gone a [] = refl
delete_gone a (b ∷ bs) = let again = delete_gone a bs in ground arith

delete_other : (a c : ℕ) (bs : List ℕ) → c ≢ a → is_member c (delete a bs) ≡ is_member c bs
unfolding delete
delete_other a c [] h = refl
delete_other a c (b ∷ bs) h = let again = delete_other a c bs h in ground arith

-- When the check's handle of an initialized object with data is closed: the object loses its
-- data, leaves the tree alone of all objects, the reference count falls by one, and from then on
-- ch_chirp_close_ts returns CH_FATAL.
pub closing_down_ends :
    (chirp : Instance) (i : Chirp) (p : Process)
    → chirp.initialized ≡ true
    → chirp.internal ≡ some i
    → (r : Instance × Process) × (closing_down chirp p ≡ done r)
      × ((sent : ℤ) → close_ts sent r.0 ≡ (r.0, fatal))
      × (is_member chirp.self r.1.instances ≡ false)
      × ((c : ℕ) → c ≢ chirp.self → is_member c r.1.instances ≡ is_member c p.instances)
      × (r.1.ref_count ≡ p.ref_count -ℤ 1)
unfolding closing_down close_ts close_internal
closing_down_ends chirp i p h k = rw k (
  _,
  refl,
  (λ sent. rw h refl),
  delete_gone chirp.self p.instances,
  (λ c other. delete_other chirp.self c p.instances other),
  refl,
)

-- What the signal handler makes of one object.
touch : (ℕ → ℤ) → Instance → Chirp → Instance
touch sent t i = if i.config.close_on_sigint == 0 then t else (close_ts (sent t.self) t).0

module _ (sent sent' : ℕ → ℤ) where
  touched :
      (t : Instance) (i : Chirp)
      → t.internal ≡ some i
      → (i' : Chirp) × ((touch sent t i).internal ≡ some i')
        × (touch sent' (touch sent t i) i' ≡ touch sent t i)
  unfolding touch close_ts close_internal
  touched t i h = elim (Bool-cases (i.config.close_on_sigint == 0)) [
    | inl on ↦ (i, rw on h, rw on refl)
    | inr off ↦ elim (Bool-cases t.initialized) [
      | inr bare ↦ (i, rw (off, bare) h, rw (off, bare) refl)
      | inl magic ↦ elim (Bool-cases i.closed) [
        | inl down ↦ (i, rw (off, magic, h, down) refl, rw (off, magic, h, down) refl)
        | inr up ↦ elim (Bool-cases i.closing) [
          | inl on ↦ (i, rw (off, magic, h, up, on) refl, rw (off, magic, h, up, on) refl)
          | inr idle ↦ (
            record i { closing = true },
            rw (off, magic, h, up, idle) refl,
            rw (off, magic, h, up, idle) refl,
          )
        ]
      ]
    ]
  ]

  -- Objects whose field `_` is set.
  abbrev pub HaveData : List Instance → Type 0
  HaveData [] = Unit {0}
  HaveData (t ∷ ts) = ((i : Chirp) × (t.internal ≡ some i)) × HaveData ts

  marked_twice :
      (ts : List Instance)
      → HaveData ts
      → (us : List Instance) × (close_marked sent ts ≡ done us) × (close_marked sent' us ≡ done us)
  unfolding close_marked touch
  marked_twice [] h = ([], refl, refl)
  marked_twice (t ∷ ts) ((i, h), hs) =
      let (us, first, second) = marked_twice ts hs in
      let (j, kept, same) = touched t i h in
      (
        touch sent t i ∷ us,
        rw (h, first) refl,
        rw (kept, second) (ap (λ (u : Instance). done (u ∷ us)) same),
      )

  -- A signal handler that runs while every object of the tree has its data returns, and running it
  -- again on the same signal changes nothing, whatever uv_async_send returned.
  pub sig_handler_twice :
      (signo : ℕ) (ts : List Instance)
      → HaveData ts
      → (us : List Instance) × (sig_handler sent signo ts ≡ done us)
        × (sig_handler sent' signo us ≡ done us)
  unfolding sig_handler
  sig_handler_twice signo ts h =
      elim (Bool-cases (not (signo == sigint) && not (signo == sigterm))) [
        | inl other ↦ (ts, rw other refl, rw other refl)
        | inr ours ↦
            let (us, first, second) = marked_twice ts h in
            (us, rw (ours, first) refl, rw (ours, second) refl)
      ]
