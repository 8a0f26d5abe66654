-- ===== src/Devices/Tokens.antt =====
-- What a device's token is worth from its creation to its revocation (internal/manager/devices.go).
use cube.Prelude.{
  ◌++◌, ◌≡◌, ◌≢◌, refl, ap, subst, ◌∙◌, inl, inr, Bool, true, false, some, List, [], ◌∷◌, arith,
  All, Bool-cases, Str, text, str_eq_iff, str_eq_refl, trim_space, is_empty, exists_by, find_by,
  update_first, find_by-append,
}
use mathlib.Core.Option.{some-injective}
use cube.Types.{Time, Client}
use cube.Result.{ok}
use cube.World.{World, M, ◌>>=◌, tick, random_text}
use cube.World.Steps.{
  loaded, after_load, after_time, after_stamp, after_save, after_pure, after_raise_if, last_save,
}
use cube.Passwords.{Crypto, hash_token}
use cube.Devices.{
  ClientView, client_view, new_client, has_client_id, with_revoked, revoke, revoke_device, accepts,
  authenticated, create_device, generate_device_token, label_or, client_ids,
}
use cube.Identity.{unique_from_used}

-- No two clients have the same id.
abbrev pub DistinctClients : List Client → Type 0
DistinctClients [] = Unit
DistinctClients (c ∷ clients) = All (λ (d : Client). d.id ≢ c.id) clients × DistinctClients clients

revoked-accepts : (hash : Str) (now : Time) (c : Client) → accepts hash (with_revoked now c) ≡ false
unfolding accepts with_revoked
revoked-accepts hash now c = refl

-- Whatever holds of all holds of the one found.
find_by-All :
    (p : Client → Bool) (id : Str) (clients : List Client) {c : Client}
    → All (λ (d : Client). d.id ≢ id) clients
    → find_by p clients ≡ some c
    → c.id ≢ id
unfolding find_by
find_by-All p id [] a h = cc
find_by-All p id (x ∷ clients) {c} a h = elim (Bool-cases (p x)) [
  | inl e ↦ subst (λ (d : Client). d.id ≢ id) (some-injective x c (rw e at h)) a.0
  | inr e ↦ find_by-All p id clients a.1 (rw e at h)
]

-- A client that is accepted after a revocation has another id.
revoked-authenticated :
    (id hash : Str) (now : Time) (clients : List Client)
    → DistinctClients clients
    → {c : Client}
    → authenticated hash (update_first (has_client_id id) (with_revoked now) clients) ≡ some c
    → c.id ≢ id
unfolding authenticated find_by update_first
revoked-authenticated id hash now [] d h = cc
revoked-authenticated id hash now (x ∷ clients) d {c} h = elim (Bool-cases (has_client_id id x)) [
  | inl e ↦
      let same : x.id ≡ id = (str_eq_iff x.id id).0 (unfold has_client_id in e) in
      find_by-All (accepts hash) id clients
        (subst (λ (i : Str). All (λ (d : Client). d.id ≢ i) clients) same d.0)
        (rw (revoked-accepts hash now x) at (rw e at h))
  | inr e ↦ elim (Bool-cases (accepts hash x)) [
    | inl f ↦
        let same : x ≡ c = some-injective x c (rw f at (rw e at h)) in
        unfold has_client_id in ground (arith, str_eq_iff x.id id, ap (λ (y : Client). y.id) same)
    | inr f ↦ revoked-authenticated id hash now clients d.1 (rw f at (rw e at h))
  ]
]

-- When `RevokeDevice` succeeds and no two loaded clients have the same id, no token is accepted for the
-- device in the new document.
pub revoke_device-authenticated :
    (id : Str) (w : World) {u : Unit {0}} {w' : World}
    → revoke_device id w ≡ (ok u, w')
    → DistinctClients (loaded w).clients
    → (hash : Str) {c : Client} → authenticated hash w'.document.clients ≡ some c
    → c.id ≢ id
unfolding revoke_device revoke
revoke_device-authenticated id w {u} {w'} h d hash {c} found =
    let h₁ = after_time (tick w) _ (after_load w _ h) in
    let (_, h₂) = after_raise_if (tick (tick w)) _ _ _ h₁ in
    let s = last_save _ (tick (tick w)) h₂ in
    revoked-authenticated id hash (w.env.clock (tick w).step) (loaded w).clients d {c = c}
      (rw (ap (λ (x : World). x.document.clients) s) at found)

after_generate {ℓ} :
    {B : Type ℓ} (w : World) {b : B} {w' : World} (f : Str → M B)
    → (generate_device_token >>= f) w ≡ (ok b, w')
    → f (text "cube_dev_" ++ w.env.random w.step) (tick w) ≡ (ok b, w')
unfolding generate_device_token random_text
after_generate w f h = elim (Bool-cases (w.env.fails w.step)) [
  | inl e ↦ cc (rw e at h)
  | inr e ↦ rw e at h
]

-- What the token of a new device is worth.
pub record Enrolls (k : Crypto) (user_id : Str) (reply : ClientView × Str) (w' : World)
    : Type 0 where
  pub client : Client
  pub shown : reply.0 ≡ client_view client
  pub owner : client.user_id ≡ trim_space user_id
  pub accepted : authenticated (hash_token k reply.1) w'.document.clients ≡ some client

-- When `CreateDevice` succeeds, the token's hash is not empty and no loaded client is accepted with it:
-- in the new document the token is accepted for the device that was returned, whose owner is the
-- trimmed user id.
pub create_device-Enrolls :
    (k : Crypto) (user_id label : Str) (w : World) {reply : ClientView × Str} {w' : World}
    → create_device k user_id label w ≡ (ok reply, w')
    → is_empty (hash_token k reply.1) ≡ false
    → exists_by (accepts (hash_token k reply.1)) (loaded (tick w)).clients ≡ false
    → Enrolls k user_id reply w'
unfolding create_device
create_device-Enrolls k user_id label w {reply} {w'} h given fresh =
    let (_, h₁) = after_raise_if w _ _ _ h in
    let h₂ = after_load (tick w) _ (after_generate w _ h₁) in
    let v = tick (tick w) in
    let (_, h₃) = after_raise_if v _ _ _ h₂ in
    let h₄ = after_time (tick v) _ (after_stamp v _ h₃) in
    let (e, s) = after_pure _ _ (after_save (tick (tick v)) _ _ h₄) in
    let label' = label_or (trim_space label) (text "device") in
    let minted = text "cube_dev_" ++ w.env.random w.step in
    let before = loaded (tick w) in
    let id =
      unique_from_used (w.env.stamp v.step) (text "device-" ++ label')
        (client_ids before.clients) in
    let device =
      new_client id (trim_space user_id) label' (hash_token k minted) (w.env.clock (tick v).step) in
    let same : reply.1 ≡ minted = ap (λ (r : ClientView × Str). r.1) e in
    let mine : accepts (hash_token k reply.1) device ≡ true =
      unfold accepts new_client in
      rw same (ground (arith, str_eq_refl (hash_token k minted), rw same at given)) in
    record {
      client = device;
      shown = ap (λ (r : ClientView × Str). r.0) e;
      owner = unfold new_client in refl;
      accepted =
          unfold authenticated in
          ap (λ (x : World). find_by (accepts (hash_token k reply.1)) x.document.clients) s
          ∙ find_by-append (accepts (hash_token k reply.1)) before.clients device fresh mine;
    }
