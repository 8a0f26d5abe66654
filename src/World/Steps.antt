-- ===== src/World/Steps.antt =====
-- Inversion: a run that goes through one more call and succeeds. `after_f` takes a run that begins
-- with `f` to the run of the rest, at what `f` gave and in the world that it left.
use cube.Prelude.{
  suc, ◌≡◌, refl, ap, inl, inr, Bool, true, false, some, if◌then◌else◌, arith, Bool-cases, Str,
  str_eq,
}
use cube.Types.{Time, State}
use cube.Normalize.{normalize_state}
use cube.Result.{Error, Result, ok, err}
use cube.World.{
  World, M, continue, time_stamp, pure, ◌>>=◌, ◌>>◌, tick, time_now, acquire_lock, load, save,
  or_save, random_text, load_round_robin, lift, write_auth, raise_if, write_profile_files, io_step,
  require_json,
}

-- What `load` gives at this point.
abbrev pub loaded : World → State
loaded w = normalize_state (w.env.clock w.step) (w.env.stamp w.step) w.document

-- The world after a save.
abbrev pub saved : State → World → World
saved state w = record w { step = suc w.step; document = record state { version = 1 } }

module _ {ℓ} {B : Type ℓ} (w : World) {b : B} {w' : World} where
  pub after_lock : (k : M B) → (acquire_lock >> k) w ≡ (ok b, w') → k (tick w) ≡ (ok b, w')
  unfolding acquire_lock
  after_lock k h = elim (Bool-cases (w.env.fails w.step)) [
    | inl e ↦ cc (rw e at h)
    | inr e ↦ rw e at h
  ]

  pub after_io : (k : M B) → (io_step >> k) w ≡ (ok b, w') → k (tick w) ≡ (ok b, w')
  unfolding io_step
  after_io k h = elim (Bool-cases (w.env.fails w.step)) [
    | inl e ↦ cc (rw e at h)
    | inr e ↦ rw e at h
  ]

  pub after_load :
      (f : State → M B) → (load >>= f) w ≡ (ok b, w') → f (loaded w) (tick w) ≡ (ok b, w')
  unfolding load
  after_load f h = elim (Bool-cases (w.env.fails w.step)) [
    | inl e ↦ cc (rw e at h)
    | inr e ↦ rw e at h
  ]

  pub after_time :
      (f : Time → M B)
      → (time_now >>= f) w ≡ (ok b, w')
      → f (w.env.clock w.step) (tick w) ≡ (ok b, w')
  unfolding time_now
  after_time f h = h

  pub after_random :
      (f : Str → M B)
      → (random_text >>= f) w ≡ (ok b, w')
      → f (w.env.random w.step) (tick w) ≡ (ok b, w')
  unfolding random_text
  after_random f h = elim (Bool-cases (w.env.fails w.step)) [
    | inl e ↦ cc (rw e at h)
    | inr e ↦ rw e at h
  ]

  pub after_round_robin :
      (f : Str → M B)
      → (load_round_robin >>= f) w ≡ (ok b, w')
      → f w.round_robin (tick w) ≡ (ok b, w')
  unfolding load_round_robin
  after_round_robin f h = elim (Bool-cases (w.env.fails w.step)) [
    | inl e ↦ cc (rw e at h)
    | inr e ↦ rw e at h
  ]

  pub after_save :
      (state : State) (k : M B) → (save state >> k) w ≡ (ok b, w') → k (saved state w) ≡ (ok b, w')
  unfolding save
  after_save state k h = elim (Bool-cases (w.env.fails w.step)) [
    | inl e ↦ cc (rw e at h)
    | inr e ↦ rw e at h
  ]

  pub after_write_auth :
      (home content : Str) (k : M B)
      → (write_auth home content >> k) w ≡ (ok b, w')
      → k (write_auth home content w).1 ≡ (ok b, w')
  unfolding write_auth
  after_write_auth home content k h = elim (Bool-cases (w.env.fails w.step)) [
    | inl e ↦ cc (rw e at h)
    | inr e ↦ rw e (rw e at h)
  ]

module _ {ℓ κ} {A : Type ℓ} {B : Type κ} (w : World) {b : B} {w' : World} where
  pub after_lift :
      (r : Result A) (f : A → M B)
      → (lift r >>= f) w ≡ (ok b, w')
      → (a : A) × (r ≡ ok a) × (f a w ≡ (ok b, w'))
  after_lift (ok a) f h = (a, refl, h)
  after_lift (err e) f h = cc

  pub after_or_save :
      (state : State) (r : Result A) (f : A → M B)
      → (or_save state r >>= f) w ≡ (ok b, w')
      → (a : A) × (r ≡ ok a) × (f a w ≡ (ok b, w'))
  unfolding or_save
  after_or_save state (ok a) f h = (a, refl, h)
  after_or_save state (err e) f h = cc

module _ {ℓ} {A : Type ℓ} where
  pub after_pure :
      (a : A) (w : World) {b : A} {w' : World} → pure a w ≡ (ok b, w') → (b ≡ a) × (w' ≡ w)
  after_pure a w h = (ground arith, ground arith)

-- The same at the end of a run.
pub last_save :
    (state : State) (w : World) {u : Unit {0}} {w' : World}
    → save state w ≡ (ok u, w')
    → w' ≡ saved state w
unfolding save
last_save state w h = ground arith

module _ {ℓ} {B : Type ℓ} (w : World) {b : B} {w' : World} where
  pub after_raise_if :
      (c : Bool) (e : Error) (k : M B)
      → (raise_if c e >> k) w ≡ (ok b, w')
      → (c ≡ false) × (k w ≡ (ok b, w'))
  unfolding raise_if
  after_raise_if true e k h = cc
  after_raise_if false e k h = (refl, h)

  pub after_require_json :
      (auth : Str) (e : Error) (k : M B)
      → (require_json auth e >> k) w ≡ (ok b, w')
      → (w.env.json_valid auth ≡ true) × (k w ≡ (ok b, w'))
  unfolding require_json
  after_require_json auth e k h = elim (Bool-cases (w.env.json_valid auth)) [
    | inl v ↦ (v, rw v at h)
    | inr v ↦ cc (rw v at h)
  ]

  -- The files keep the document.
  pub after_write_profile_files :
      (home auth : Str) (k : M B)
      → (write_profile_files home auth >> k) w ≡ (ok b, w')
      → k (record (tick (tick w)) {
        auth = λ x. if str_eq x home then some (w.env.pretty_json auth) else w.auth x;
      })
        ≡ (ok b, w')
  unfolding write_profile_files io_step write_auth
  after_write_profile_files home auth k h = elim (Bool-cases (w.env.fails w.step)) [
    | inl e ↦ cc (rw e at h)
    | inr e ↦ elim (Bool-cases (w.env.fails (suc w.step))) [
      | inl e' ↦ cc (rw e' at (rw e at h))
      | inr e' ↦ rw e' at (rw e at h)
    ]
  ]

module _ {ℓ} {B : Type ℓ} (w : World) {b : B} {w' : World} where
  pub after_stamp :
      (f : Str → M B)
      → (time_stamp >>= f) w ≡ (ok b, w')
      → f (w.env.stamp w.step) (tick w) ≡ (ok b, w')
  unfolding time_stamp
  after_stamp f h = h

module _ {ℓ κ} {A : Type ℓ} {B : Type κ} where
  pub continue-ok :
      (f : A → M B) (r : Result A) (v : World) {b : B} {w' : World}
      → continue f r v ≡ (ok b, w')
      → (a : A) × (r ≡ ok a) × (f a v ≡ (ok b, w'))
  continue-ok f (ok a) v h = (a, refl, h)
  continue-ok f (err e) v h = cc

  -- Any first call: its result and the world it left.
  pub after_bind :
      (m : M A) (f : A → M B) (w : World) {b : B} {w' : World}
      → (m >>= f) w ≡ (ok b, w')
      → (a : A) × (m w ≡ (ok a, (m w).1)) × (f a (m w).1 ≡ (ok b, w'))
  after_bind m f w h =
      let (a, p, q) = continue-ok f (m w).0 (m w).1 h in (a, ap (λ r. (r, (m w).1)) p, q)
