-- ===== src/Passwords.antt =====
-- `hashPassword`, `checkPassword` and `hashToken` of internal/manager/identity.go. SHA-256, PBKDF2 and
-- base64 are not written out: they are the fields of `Crypto`.
pub mod Check
use cube.Prelude.{
  ℕ, zero, suc, ◌+◌, ◌*◌, ◌-◌, ◌^◌, ◌++◌, ◌==◌, ltb, leb, Bool, true, false, not, ◌&&◌, ◌||◌,
  Option, none, some, List, [], ◌∷◌, if◌then◌else◌, Str, text, str_eq, trim_space, is_empty,
  is_blank, length,
}
use cube.Result.{Result, ok, err, io}
use cube.World.{M, pure, lift, ◌>>=◌, ◌>>◌, random_text}

-- `derive password salt iterations length` is pbkdf2.Key, which may refuse; `encode` and `decode` are
-- base64 without padding; `digest` is SHA-256 in hexadecimal.
pub record Crypto : Type 0 where
  pub digest : Str → Str
  pub derive : Str → Str → ℕ → ℕ → Option Str
  pub encode : Str → Str
  pub decode : Str → Option Str

-- `strings.Split(s, sep)`, for a separator of one character.
unfoldable pub split_on : ℕ → Str → List Str
split_on sep [] = [] ∷ []
split_on sep (c ∷ s) =
    let rest = split_on sep s in
    if c == sep
    then [] ∷ rest
    else elim rest [ [] ↦ (c ∷ []) ∷ [] | part ∷ parts ↦ (c ∷ part) ∷ parts ]

unfoldable pub is_digit : ℕ → Bool
is_digit c = leb b'0' c && leb c b'9'

-- The digits at the front of a text, with the number so far.
unfoldable pub scan_digits : ℕ → Str → ℕ
scan_digits n [] = n
scan_digits n (c ∷ s) = if is_digit c then scan_digits (10 * n + (c - b'0')) s else n

abbrev starts_with_digit : Str → Bool
starts_with_digit [] = false
starts_with_digit (c ∷ s) = is_digit c

abbrev without_plus : Str → Str
without_plus [] = []
without_plus (c ∷ s) = if c == b'+' then s else c ∷ s

-- `fmt.Sscanf(s, "%d", &iter)` with `iter > 0`: a sign and digits, what follows is not read. Blanks in
-- front are skipped; a number over the range of int64 is an error.
unfoldable pub scan_positive : Str → Option ℕ
scan_positive s =
    let s = without_plus (trim_space s) in
    let n = scan_digits 0 s in
    if starts_with_digit s && ltb 0 n && ltb n (2 ^ 63) then some n else none

unfoldable pub or_io : Option Str → Result Str
or_io none = err io
or_io (some s) = ok s

abbrev pub iterations : ℕ
iterations = 210_000

-- The stored form: pbkdf2$<iter>$<salt>$<key>.
unfoldable pub stored_password : Str → Str → Str
stored_password salt key = text "pbkdf2$210000$" ++ (salt ++ (b'$' ∷ key))

-- Go's `if got, err := ...; err != nil { return false }` on the decoded parts.
unfoldable pub key_matches : Option Str → Str → Bool
key_matches none want = false
key_matches (some got) want = str_eq got want

module _ (k : Crypto) where
  -- `hashToken`
  unfoldable pub hash_token : Str → Str
  hash_token token = k.digest (trim_space token)

  unfoldable pub hash_password : Str → M Str
  hash_password password = do
    salt ← random_text
    key ← lift (or_io (k.derive password salt iterations 32))
    pure (stored_password (k.encode salt) (k.encode key))

  unfoldable pub check_decoded : Str → Option ℕ → Option Str → Option Str → Bool
  check_decoded password (some iter) (some salt) (some want) =
      key_matches (k.derive password salt iter (length want)) want
  check_decoded password _ _ _ = false

  unfoldable pub check_parts : Str → List Str → Bool
  check_parts password (scheme ∷ iter ∷ salt ∷ key ∷ []) =
      str_eq scheme (text "pbkdf2")
      && check_decoded password (scan_positive iter) (k.decode salt) (k.decode key)
  check_parts password _ = false

  unfoldable pub check_password : Str → Str → Bool
  check_password stored password =
      not (is_blank stored) && check_parts password (split_on b'$' stored)
