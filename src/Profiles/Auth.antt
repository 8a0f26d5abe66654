-- ===== src/Profiles/Auth.antt =====
-- internal/manager/identity.go: what an auth.json says of the account. json.Unmarshal, base64 and
-- SHA-256 in hexadecimal are the fields of `Codec`.
use cube.Prelude.{
  ◌+◌, ◌%◌, ◌==◌, ◌++◌, Option, none, some, List, [], ◌∷◌, if◌then◌else◌, Str, text, trim_space,
  to_lower, is_blank, length,
}
use cube.Passwords.{split_on}
use cube.Usage.Json.{Fields, at, as_object, as_string, string_at}
use cube.World.{M}
use cube.Result.{ok}

pub record Codec : Type 0 where
  pub decode : Str → Option Fields
  pub base64 : Str → Option Str
  pub digest : Str → Str

-- `strings.ReplaceAll(s, "-", "+")` and of "_" by "/".
abbrev standard : Str → Str
standard [] = []
standard (c ∷ s) = (if c == b'-' then b'+' else if c == b'_' then b'/' else c) ∷ standard s

abbrev padded : Str → Str
padded s =
    let r = length s % 4 in
    if r == 1
    then s ++ text "==="
    else if r == 2
    then s ++ text "=="
    else if r == 3
    then s ++ text "="
    else s

abbrev second_part : List Str → Option Str
second_part (header ∷ payload ∷ parts) = some payload
second_part _ = none

abbrev pub or_no_fields : Option Fields → Fields
or_no_fields none = Fields.no_fields
or_no_fields (some fields) = fields

-- The first of the texts that is there.
abbrev pub first_of : List (Option Str) → Option Str
first_of [] = none
first_of (none ∷ os) = first_of os
first_of (some s ∷ os) = some s

abbrev pub mapped : (Str → Str) → Option Str → Option Str
mapped f none = none
mapped f (some s) = some (f s)

abbrev pub or_empty : Option Str → Str
or_empty none = []
or_empty (some s) = s

abbrev before_at : Str → Str
before_at s = elim (split_on b'@' s) [ [] ↦ [] | part ∷ parts ↦ part ]

module _ (k : Codec) where
  abbrev claims_of : Option Str → Fields
  claims_of none = Fields.no_fields
  claims_of (some payload) = elim (k.base64 (padded (standard payload))) [
    | none ↦ Fields.no_fields
    | some data' ↦ or_no_fields (k.decode data')
  ]

  unfoldable pub claims_from_id_token : Str → Fields
  claims_from_id_token id_token = claims_of (second_part (split_on b'.' (trim_space id_token)))

  -- The tokens and the claims of the id token; empty objects where there are none.
  abbrev pub tokens_of : Fields → Fields
  tokens_of auth = or_no_fields (as_object (at auth (text "tokens")))

  abbrev pub claims_in : Fields → Fields
  claims_in auth = claims_from_id_token (as_string (at (tokens_of auth) (text "id_token")))

  unfoldable pub auth_identity : Fields → Str
  unfolding claims_from_id_token
  auth_identity auth = or_empty (
      first_of (
        mapped (λ s. text "account_id:" ++ trim_space s)
          (string_at (tokens_of auth) (text "account_id"))
        ∷ mapped (λ s. text "sub:" ++ trim_space s) (string_at (claims_in auth) (text "sub"))
        ∷ mapped (λ s. text "email:" ++ to_lower (trim_space s))
            (string_at (claims_in auth) (text "email"))
        ∷ mapped (λ s. text "api_key:" ++ k.digest (trim_space s))
            (string_at auth (text "OPENAI_API_KEY"))
        ∷ []))

  unfoldable pub derive_id_from_auth : Fields → Str → Str
  unfolding claims_from_id_token
  derive_id_from_auth auth label = or_empty (
      first_of (
        string_at (tokens_of auth) (text "account_id")
        ∷ string_at (claims_in auth) (text "sub")
        ∷ mapped before_at (string_at (claims_in auth) (text "email"))
        ∷ (if is_blank label then none else some label)
        ∷ mapped (λ s. text "api-key") (string_at auth (text "OPENAI_API_KEY"))
        ∷ []))

  unfoldable pub derive_label_from_auth : Fields → Str
  unfolding claims_from_id_token
  derive_label_from_auth auth = or_empty (
      first_of (
        string_at (claims_in auth) (text "email")
        ∷ string_at (claims_in auth) (text "https://api.openai.com/profile_email")
        ∷ string_at (claims_in auth) (text "sub")
        ∷ string_at (tokens_of auth) (text "account_id")
        ∷ []))

  abbrev pub metadata : Option Str → Fields
  metadata none = Fields.no_fields
  metadata (some content) = or_no_fields (k.decode content)

  -- `readAuthMetadata`, of the auth.json in a directory: nothing where it cannot be read.
  unfoldable pub read_auth_metadata : Str → M Fields
  read_auth_metadata home w = (
    ok (if w.env.fails w.step then Fields.no_fields else metadata (w.auth home)),
    record w { step = w.step + 1 },
  )
