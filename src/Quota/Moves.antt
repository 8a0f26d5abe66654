-- ===== src/Quota/Moves.antt =====
-- How `writeQuotaResultLocked` (internal/manager/quota.go) may change an account.
use cube.Prelude.{
  ◌≡◌, refl, ◌∙◌, ◌⊎◌, inl, inr, Bool, true, ◌&&◌, ◌||◌, List, if◌then◌else◌, if-elim, Str, All2,
  All2-refl, All2-update_first,
}
use cube.Types.{
  Time, Message, Account, AccountStatus, status_eq, AccountOwnerMode, QuotaSource, QuotaStatus,
  quota_status_eq, QuotaResult,
}
use cube.Accounts.{has_id}
use cube.Quota.{
  is_client, flip_owner, note_invalid, note_supported, note_changed, record_outcome, flip_owners,
}

-- How a result may move the status of an account.
pub data StatusMove (q : QuotaStatus) (s t : AccountStatus) : Type 0 where
  stays : t ≡ s → StatusMove q s t
  drains :
      q ≡ QuotaStatus.refresh_invalid
      → (s ≡ AccountStatus.ready) ⊎ (s ≡ AccountStatus.recovering)
      → t ≡ AccountStatus.drain
      → StatusMove q s t
  recovers :
      q ≡ QuotaStatus.supported
      → s ≡ AccountStatus.recovering
      → t ≡ AccountStatus.ready
      → StatusMove q s t

-- The account is the same and so is its lease.
pub record SameLease (a b : Account) : Type 0 where
  pub id : b.id ≡ a.id
  pub lease_id : b.lease_id ≡ a.lease_id
  pub lease_client_id : b.lease_client_id ≡ a.lease_client_id
  pub lease_holder : b.lease_holder ≡ a.lease_holder
  pub lease_expires_at : b.lease_expires_at ≡ a.lease_expires_at

-- What a result may do to an account whose owner it must leave alone.
pub record Noted (q : QuotaStatus) (a b : Account) : Type 0 where
  pub lease : SameLease a b
  pub owner : (b.owner_mode ≡ a.owner_mode) × (b.owner_client_id ≡ a.owner_client_id)
  pub status : StatusMove q a.status b.status

same : (a : Account) → SameLease a a
same a = record {
  id = refl;
  lease_id = refl;
  lease_client_id = refl;
  lease_holder = refl;
  lease_expires_at = refl;
}

Noted-refl : (q : QuotaStatus) (a : Account) → Noted q a a
Noted-refl q a = record { lease = same a; owner = (refl, refl); status = StatusMove.stays refl }

-- The two rules for the status.
drain_move :
    (s : AccountStatus)
    → StatusMove QuotaStatus.refresh_invalid s (
        if status_eq s AccountStatus.ready || status_eq s AccountStatus.recovering
        then AccountStatus.drain
        else s)
unfolding status_eq
drain_move AccountStatus.ready = StatusMove.drains refl (inl refl) refl
drain_move AccountStatus.recovering = StatusMove.drains refl (inr refl) refl
drain_move AccountStatus.drain = StatusMove.stays refl
drain_move AccountStatus.disabled = StatusMove.stays refl
drain_move (AccountStatus.other s) = StatusMove.stays refl

recover_move :
    (s : AccountStatus)
    → StatusMove QuotaStatus.supported s
        (if status_eq s AccountStatus.recovering then AccountStatus.ready else s)
unfolding status_eq
recover_move AccountStatus.ready = StatusMove.stays refl
recover_move AccountStatus.recovering = StatusMove.recovers refl refl refl
recover_move AccountStatus.drain = StatusMove.stays refl
recover_move AccountStatus.disabled = StatusMove.stays refl
recover_move (AccountStatus.other s) = StatusMove.stays refl

is_refresh_invalid :
    (q : QuotaStatus)
    → quota_status_eq q QuotaStatus.refresh_invalid ≡ true
    → q ≡ QuotaStatus.refresh_invalid
unfolding quota_status_eq
is_refresh_invalid QuotaStatus.supported h = cc
is_refresh_invalid QuotaStatus.unsupported h = cc
is_refresh_invalid QuotaStatus.not_configured h = cc
is_refresh_invalid QuotaStatus.refresh_invalid h = refl
is_refresh_invalid QuotaStatus.error h = cc
is_refresh_invalid (QuotaStatus.other s) h = cc

is_supported :
    (q : QuotaStatus) → quota_status_eq q QuotaStatus.supported ≡ true → q ≡ QuotaStatus.supported
unfolding quota_status_eq
is_supported QuotaStatus.supported h = refl
is_supported QuotaStatus.unsupported h = cc
is_supported QuotaStatus.not_configured h = cc
is_supported QuotaStatus.refresh_invalid h = cc
is_supported QuotaStatus.error h = cc
is_supported (QuotaStatus.other s) h = cc

note_invalid-SameLease :
    (d : Message) (now : Time) (a : Account) → SameLease a (note_invalid d now a)
unfolding note_invalid
note_invalid-SameLease d now a = record {
  id = refl;
  lease_id = refl;
  lease_client_id = refl;
  lease_holder = refl;
  lease_expires_at = refl;
}

note_supported-SameLease :
    (plan : Str) (changed : Bool) (now : Time) (a : Account)
    → SameLease a (note_supported plan changed now a)
unfolding note_supported
note_supported-SameLease plan changed now a = record {
  id = refl;
  lease_id = refl;
  lease_client_id = refl;
  lease_holder = refl;
  lease_expires_at = refl;
}

note_changed-SameLease : (now : Time) (a : Account) → SameLease a (note_changed now a)
unfolding note_changed
note_changed-SameLease now a = record {
  id = refl;
  lease_id = refl;
  lease_client_id = refl;
  lease_holder = refl;
  lease_expires_at = refl;
}

flip_owner-SameLease :
    (reporter : Str) (now : Time) (a : Account) → SameLease a (flip_owner reporter now a)
unfolding flip_owner
flip_owner-SameLease reporter now a = record {
  id = refl;
  lease_id = refl;
  lease_client_id = refl;
  lease_holder = refl;
  lease_expires_at = refl;
}

pub record_outcome-Noted :
    (id : Str) (r : QuotaResult) (changed : Bool) (now : Time) (l : List Account)
    → All2 (Noted r.status) l (record_outcome id r changed now l)
unfolding record_outcome
record_outcome-Noted id r changed now l =
    let R = Noted r.status in
    let same_all = All2-refl R (Noted-refl r.status) l in
    let update = λ (f : Account → Account) (s : (a : Account) → R a (f a)).
      All2-update_first R (has_id id) f (Noted-refl r.status) (λ a h. s a) l in
    if-elim (λ x. All2 R l x) (quota_status_eq r.status QuotaStatus.refresh_invalid)
      (λ h. update (note_invalid r.detail now) (λ a. record {
        lease = note_invalid-SameLease r.detail now a;
        owner = unfold note_invalid in (refl, refl);
        status = unfold note_invalid in rw (is_refresh_invalid r.status h) (drain_move a.status);
      }))
      (λ h.
        if-elim (λ x. All2 R l x) (quota_status_eq r.status QuotaStatus.supported)
          (λ h'. update (note_supported r.plan changed now) (λ a. record {
            lease = note_supported-SameLease r.plan changed now a;
            owner = unfold note_supported in (refl, refl);
            status = unfold note_supported in rw (is_supported r.status h') (recover_move a.status);
          }))
          (λ h'.
            if-elim (λ x. All2 R l x) changed
              (λ c. update (note_changed now) (λ a. record {
                lease = note_changed-SameLease now a;
                owner = unfold note_changed in (refl, refl);
                status = unfold note_changed in StatusMove.stays refl;
              }))
              (λ c. same_all)))

-- What a recorded report may do: as before, but the owner may become the reporting client.
pub record Reported (q : QuotaStatus) (a b : Account) : Type 0 where
  pub lease : SameLease a b
  pub owner : (b.owner_mode ≡ a.owner_mode) ⊎ (b.owner_mode ≡ AccountOwnerMode.client)
  pub status : StatusMove q a.status b.status

SameLease-trans : {a b c : Account} → SameLease a b → SameLease b c → SameLease a c
SameLease-trans p q = record {
  id = q.id ∙ p.id;
  lease_id = q.lease_id ∙ p.lease_id;
  lease_client_id = q.lease_client_id ∙ p.lease_client_id;
  lease_holder = q.lease_holder ∙ p.lease_holder;
  lease_expires_at = q.lease_expires_at ∙ p.lease_expires_at;
}

-- The owner may flip, nothing else changes that `Reported` speaks of.
pub record Flipped (a b : Account) : Type 0 where
  pub lease : SameLease a b
  pub owner : (b.owner_mode ≡ a.owner_mode) ⊎ (b.owner_mode ≡ AccountOwnerMode.client)
  pub status : b.status ≡ a.status

pub flip_owners-Flipped :
    (id : Str) (source : QuotaSource) (reporter : Str) (flip : Bool) (now : Time) (l : List Account)
    → All2 Flipped l (flip_owners id source reporter flip now l)
unfolding flip_owners
flip_owners-Flipped id source reporter flip now l =
    let keep : (a : Account) → Flipped a a =
      λ a. record { lease = same a; owner = inl refl; status = refl } in
    if-elim (λ x. All2 Flipped l x) (flip && is_client source)
      (λ h.
        All2-update_first Flipped (has_id id) (flip_owner reporter now) keep
          (λ a e. record {
            lease = flip_owner-SameLease reporter now a;
            owner = unfold flip_owner in inr refl;
            status = unfold flip_owner in refl;
          })
          l)
      (λ h. All2-refl Flipped keep l)

pub Flipped-Noted : (q : QuotaStatus) (a b c : Account) → Flipped a b → Noted q b c → Reported q a c
Flipped-Noted q a b c f n = record {
  lease = SameLease-trans f.lease n.lease;
  owner = rw n.owner.0 f.owner;
  status = rw f.status at n.status;
}
