-- ===== src/Lease/Sweep.antt =====
-- `expireAccountLeases` of internal/manager/lease.go: the loop against a map over the accounts.
use mathlib.Core.Logic.{inl, inr}
use cube.Prelude.{
  ◌≡◌, refl, ap, Bool, true, false, List, [], ◌∷◌, map, arith, All, select, if◌then◌else◌,
  Bool-cases, if-elim, Str, text, is_blank,
}
use cube.Types.{Time, Account, State, DispatchEvent}
use cube.Dispatch.{dispatch_event_from_account, append_dispatch_event}
use cube.Lease.{
  account_lease_active, is_due, expire_account, Swept, sweep_accounts, expire_account_leases,
}

-- The account as the sweep leaves it.
abbrev pub swept : Time → Account → Account
swept now a = if is_due a now then expire_account now a else a

abbrev pub due_ids : Time → List Account → List Str
due_ids now xs = map (λ a. a.id) (select (λ a. is_due a now) xs)

-- Nothing is due any more.
abbrev pub Settled : Time → List Account → Type 0
Settled now = All (λ a. is_due a now ≡ false)

pub active-not-due :
    (a : Account) (now : Time) → account_lease_active a now ≡ true → is_due a now ≡ false
unfolding account_lease_active is_due
active-not-due a now h = ground arith

expired-not-due : (a : Account) (now : Time) → is_due (expire_account now a) now ≡ false
unfolding is_due expire_account is_blank
expired-not-due a now = refl

swept-not-due : (a : Account) (now : Time) → is_due (swept now a) now ≡ false
swept-not-due a now =
    if-elim (λ b. is_due b now ≡ false) (is_due a now) (λ h. expired-not-due a now) (λ h. h)

map-swept-Settled : (now : Time) (xs : List Account) → Settled now (map (swept now) xs)
map-swept-Settled now [] = tt
map-swept-Settled now (a ∷ xs) = (swept-not-due a now, map-swept-Settled now xs)

module _ (state : State) (now : Time) where
  pub sweep_accounts-accounts :
      (ds : List DispatchEvent) (xs : List Account)
      → (sweep_accounts state now ds xs).accounts ≡ map (swept now) xs
  unfolding sweep_accounts
  sweep_accounts-accounts ds [] = refl
  sweep_accounts-accounts ds (a ∷ xs) = elim (Bool-cases (is_due a now)) [
    | inl e ↦ rw e (
        ap (◌∷◌ (expire_account now a)) (
          sweep_accounts-accounts
            (append_dispatch_event ds (dispatch_event_from_account state a (text "expired") now))
            xs))
    | inr e ↦ rw e (ap (◌∷◌ a) (sweep_accounts-accounts ds xs))
  ]

  sweep_accounts-expired :
      (ds : List DispatchEvent) (xs : List Account)
      → (sweep_accounts state now ds xs).expired ≡ due_ids now xs
  unfolding sweep_accounts select
  sweep_accounts-expired ds [] = refl
  sweep_accounts-expired ds (a ∷ xs) = elim (Bool-cases (is_due a now)) [
    | inl e ↦ rw e (
        ap (◌∷◌ a.id) (
          sweep_accounts-expired
            (append_dispatch_event ds (dispatch_event_from_account state a (text "expired") now))
            xs))
    | inr e ↦ rw e (sweep_accounts-expired ds xs)
  ]

  -- A property of the trail that each append keeps.
  sweep_accounts-trail {κ} :
      (P : List DispatchEvent → Type κ)
      → ((ds : List DispatchEvent) (e : DispatchEvent) → P ds → P (append_dispatch_event ds e))
      → (ds : List DispatchEvent) (xs : List Account) → P ds
      → P (sweep_accounts state now ds xs).dispatches
  unfolding sweep_accounts
  sweep_accounts-trail P keep ds [] p = p
  sweep_accounts-trail P keep ds (a ∷ xs) p =
      let event = dispatch_event_from_account state a (text "expired") now in
      if-elim {A = Swept} (λ s. P s.dispatches) (is_due a now)
        (λ h. sweep_accounts-trail P keep (append_dispatch_event ds event) xs (keep ds event p))
        (λ h. sweep_accounts-trail P keep ds xs p)

  -- With nothing due the sweep is the identity.
  sweep_accounts-Settled :
      (ds : List DispatchEvent) (xs : List Account)
      → Settled now xs
      → sweep_accounts state now ds xs
        ≡ record { accounts = xs; dispatches = ds; expired = []; changed = false }
  unfolding sweep_accounts
  sweep_accounts-Settled ds [] s = refl
  sweep_accounts-Settled ds (a ∷ xs) s = rw (s.0) (rw (sweep_accounts-Settled ds xs s.1) refl)

  sweep_accounts-changed :
      (ds : List DispatchEvent) (xs : List Account)
      → (sweep_accounts state now ds xs).changed ≡ false
      → Settled now xs
  unfolding sweep_accounts
  sweep_accounts-changed ds [] h = tt
  sweep_accounts-changed ds (a ∷ xs) h = ground (arith, sweep_accounts-changed ds xs)

abbrev pub SweepsLeases : State → Time → State × List Str × Bool → Type 0
SweepsLeases state now (st, ids, changed) =
    (st.accounts ≡ map (swept now) state.accounts)
    × (ids ≡ due_ids now state.accounts)
    × Settled now st.accounts
    × (expire_account_leases st now ≡ (st, [], false))

-- The sweep gives each account whose lease is due the expired form and no other account a change,
-- reports the ids of just those accounts in order, and leaves none due, so that a second sweep at the
-- same time finds nothing.
pub expire_account_leases_lem :
    (state : State) (now : Time) → SweepsLeases state now (expire_account_leases state now)
unfolding expire_account_leases
expire_account_leases_lem state now =
    let s = sweep_accounts state now state.dispatches state.accounts in
    let st = record state { accounts = s.accounts; dispatches = s.dispatches } in
    let same = sweep_accounts-accounts state now state.dispatches state.accounts in
    let none_due : Settled now s.accounts = rw same (map-swept-Settled now state.accounts) in
    (
      same,
      sweep_accounts-expired state now state.dispatches state.accounts,
      none_due,
      rw (sweep_accounts-Settled st now s.dispatches s.accounts none_due),
    )
