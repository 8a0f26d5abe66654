-- ===== src/Lease/Failure.antt =====
-- What the lease operations of internal/manager/lease.go leave behind when they fail.
use cube.Prelude.{◌≡◌, refl, subst, ◌⊎◌, inl, inr, Bool-cases, Str, ℕ}
use cube.Types.{State}
use cube.Result.{Error, Result, ok, err}
use cube.World.{
  World, M, lift, ◌>>=◌, ◌>>◌, tick, acquire_lock, io_step, load, save, time_now, or_save,
}
use cube.World.Steps.{loaded, saved}
use cube.Lease.{find_lease_account, validate_lease}
use cube.Lease.Lookup.{swept_at, now_at}
use cube.Lease.Touch.{touch_lease}
use cube.Lease.Release.{release_lease, or_not_found, released_state}

-- What a run leaves when it fails.
abbrev IfFails {ℓ} : {A : Type ℓ} → (World → Type 0) → Result A × World → Type 0
IfFails P (err e, w) = P w
IfFails P (ok a, w) = Unit {0}

failed {ℓ} :
    {A : Type ℓ} (P : World → Type 0) (run : Result A × World)
    → IfFails P run
    → {e : Error} {w' : World} → run ≡ (err e, w')
    → P w'
failed P run p h = subst (IfFails P) h p

module _ {ℓ} {B : Type ℓ} (P : World → Type 0) where
  lift_step {κ} :
      {A : Type κ} (r : Result A) (f : A → M B) (w : World)
      → P w
      → ((a : A) → r ≡ ok a → IfFails P (f a w))
      → IfFails P ((lift r >>= f) w)
  lift_step (err e) f w p g = p
  lift_step (ok a) f w p g = g a refl

  lock_step :
      (k : M B) (w : World)
      → P (tick w)
      → IfFails P (k (tick w))
      → IfFails P ((acquire_lock >> k) w)
  unfolding acquire_lock io_step
  lock_step k w p q = elim (Bool-cases (w.env.fails w.step)) [ inl e ↦ rw e p | inr e ↦ rw e q ]

  load_step :
      (f : State → M B) (w : World)
      → P (tick w)
      → IfFails P (f (loaded w) (tick w))
      → IfFails P ((load >>= f) w)
  unfolding load
  load_step f w p q = elim (Bool-cases (w.env.fails w.step)) [ inl e ↦ rw e p | inr e ↦ rw e q ]

  -- The save at the end fails or all is done.
  save_step :
      (state : State) (k : M B) (w : World)
      → P (tick w)
      → IfFails P (k (saved state w))
      → IfFails P ((save state >> k) w)
  unfolding save
  save_step state k w p q = elim (Bool-cases (w.env.fails w.step)) [
    | inl e ↦ rw e p
    | inr e ↦ rw e q
  ]

  or_save_step {κ} :
      {A : Type κ} (state : State) (r : Result A) (f : A → M B) (w : World)
      → P (tick w)
      → P (saved state w)
      → ((a : A) → r ≡ ok a → IfFails P (f a w))
      → IfFails P ((or_save state r >>= f) w)
  unfolding or_save save
  or_save_step state (ok a) f w p q g = g a refl
  or_save_step state (err x) f w p q g = elim (Bool-cases (w.env.fails w.step)) [
    | inl e ↦ rw e p
    | inr e ↦ rw e q
  ]

  or_not_found_step {κ} :
      {A : Type κ} (state : State) (r : Result A) (f : A → M B) (w : World)
      → P (tick w)
      → P (saved state w)
      → ((a : A) → r ≡ ok a → IfFails P (f a w))
      → IfFails P ((or_not_found state r >>= f) w)
  unfolding or_not_found save
  or_not_found_step state (ok a) f w p q g = g a refl
  or_not_found_step state (err x) f w p q g = elim (Bool-cases (w.env.fails w.step)) [
    | inl e ↦ rw e p
    | inr e ↦ rw e q
  ]

last_step : (P : World → Type 0) (state : State) (w : World) → P (tick w) → IfFails P (save state w)
unfolding save
last_step P state w p = elim (Bool-cases (w.env.fails w.step)) [ inl e ↦ rw e p | inr e ↦ rw e tt ]

-- The document is as it was, or it is the loaded one with the lapsed leases swept.
abbrev pub OnlySwept : World → World → Type 0
OnlySwept w w' = (w'.document ≡ w.document) ⊎ (w'.document ≡ record (swept_at w) { version = 1 })

-- When `TouchLease` fails, the document is as it was, or it is the loaded one with the lapsed leases
-- swept.
pub touch_lease-OnlySwept :
    (lid aid cid holder : Str) (ttl : ℕ) (w : World) {e : Error} {w' : World}
    → touch_lease lid aid cid holder ttl w ≡ (err e, w')
    → OnlySwept w w'
unfolding touch_lease time_now
touch_lease-OnlySwept lid aid cid holder ttl w {e} {w'} h =
    let P = OnlySwept w in
    let st = swept_at w in
    let run = touch_lease lid aid cid holder ttl w in
    let v = tick (tick (tick w)) in
    failed P run
      (lock_step P _ w (inl refl) (
        load_step P _ (tick w) (inl refl) (
          or_save_step P st (find_lease_account st aid lid) _ v (inl refl) (inr refl) λ found _.
            or_save_step P st (validate_lease found.1 lid cid (now_at w)) _ v (inl refl) (inr refl)
              λ u _. save_step P _ _ v (inl refl) tt)))
      h

-- When `ReleaseLease` fails, the document is as it was, or it is the loaded one with the lapsed leases
-- swept.
pub release_lease-OnlySwept :
    (aid lid cid : Str) (w : World) {e : Error} {w' : World}
    → release_lease aid lid cid w ≡ (err e, w')
    → OnlySwept w w'
unfolding release_lease time_now
release_lease-OnlySwept aid lid cid w {e} {w'} h =
    let P = OnlySwept w in
    let st = swept_at w in
    let run = release_lease aid lid cid w in
    let v = tick (tick (tick w)) in
    failed P run
      (lock_step P _ w (inl refl) (
        load_step P _ (tick w) (inl refl) (
          or_not_found_step P st (find_lease_account st aid lid) _ v (inl refl) (inr refl)
            λ found _.
              lift_step P (validate_lease found.1 lid cid (now_at w)) _ v (inl refl)
                λ u _. last_step P (released_state st (now_at w) found.0 found.1) v (inl refl))))
      h
