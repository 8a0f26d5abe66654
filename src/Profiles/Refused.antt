-- ===== src/Profiles/Refused.antt =====
-- What a successful upload has done (`UpsertJSONProfile` of internal/manager/accounts.go).
use cube.Prelude.{
  Option, none, ◌⊎◌, true, ℤ, if◌then◌else◌, ℕ, ◌≡◌, false, some, Str, trim_space, is_empty, set,
}
use cube.Types.{Time, Account, State}
use cube.Result.{ok}
use cube.World.{World, tick}
use cube.World.Steps.{loaded}
use cube.Lease.{account_lease_active}
use cube.Usage.Json.{Fields}
use cube.Profiles.Auth.{Codec, auth_identity}
use cube.Lease.Update.{Next}
use cube.Accounts.Edits.{Adds}
use cube.Profiles.Search.{FoundBy}
use cube.Profiles.Upsert.{
  JsonProfile, index_of, profile_id, profile_label, existing_account, reauthorized,
}

-- What an upload that found an account has done; `searched` is the world after the search. The account
-- had no active lease, its auth.json is the indented auth, and it alone is changed.
pub record Reauthorizes (k : Codec) (profile : JsonProfile) (fields : Fields) (id : Str)
    (w searched : World) (result : Option (ℕ × Account)) (a : Account) (w' : World) : Type 0 where
  pub index : ℕ
  pub old : Account
  pub is_result : result ≡ some (index, old)
  pub found : FoundBy k w id (auth_identity k fields) (loaded w).accounts index old
  pub idle : account_lease_active old (w.env.clock searched.step) ≡ false
  pub written_at : Time
  pub next : ℤ
  pub next_generation : Next old.generation next
  pub reply : a ≡ record old {
    label =
        if is_empty (profile_label k profile fields)
        then old.label
        else profile_label k profile fields;
    generation = next;
    updated_at = written_at;
  }
  pub stored : w'.document.accounts ≡ set (loaded w).accounts index a
  pub auth : w'.auth old.codex_home ≡ some (w.env.pretty_json profile.auth)

-- The id that was searched for, the result of the search and what was done then.
pub record Uploads (k : Codec) (dir : Str) (profile : JsonProfile) (w : World) (a : Account)
    (w' : World) : Type 0 where
  pub fields : Fields
  pub decoded : k.decode profile.auth ≡ some fields
  pub id : Str
  pub named_in : World
  pub named : profile_id k (loaded w) profile fields (tick w) ≡ (ok id, named_in)
  pub given : (is_empty (trim_space profile.id) ≡ true) ⊎ (id ≡ trim_space profile.id)
  pub searched : World
  pub result : Option (ℕ × Account)
  pub search :
      existing_account k (loaded w) id (auth_identity k fields) named_in ≡ (ok result, searched)
  pub outcome :
      ((result ≡ none)
        × (index_of id 0 (loaded w).accounts ≡ none)
        × (added : Account) × (v : World) × (added.id ≡ trim_space id)
        × Adds (loaded searched) added v
        × (a.id ≡ added.id))
      ⊎ Reauthorizes k profile fields id w searched result a w'

-- The same of `update_profile`, at any label.
record Updates (state : State) (label auth : Str) (i : ℕ) (old : Account) (v : World) (a : Account)
    (w' : World) : Type 0 where
  written_at : Time
  idle : account_lease_active old (v.env.clock v.step) ≡ false
  reply : a ≡ reauthorized label written_at old
  stored : w'.document.accounts ≡ set state.accounts i a
  content : w'.auth old.codex_home ≡ some (v.env.pretty_json auth)
