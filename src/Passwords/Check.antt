-- ===== src/Passwords/Check.antt =====
-- A password checks against its own hash (internal/manager/identity.go).
use cube.Prelude.{
  none, ℕ, ◌++◌, ◌≡◌, ◌≢◌, refl, ap, ◌∙◌, true, false, Option, some, [], ◌∷◌, arith, All, Str, text,
  str_eq_refl, length, is_blank, is_empty, trim_space, trim_by, drop_while, is_space, trim_right,
}
use cube.Prelude.Trim.{trim_right-cons}
use cube.Result.{ok}
use cube.World.{World, tick}
use cube.World.Steps.{after_random, after_lift, after_pure}
use cube.Passwords.{
  Crypto, split_on, scan_positive, scan_digits, is_digit, stored_password, key_matches,
  hash_password, check_decoded, check_parts, check_password, or_io, iterations,
}

abbrev NoDollar : Str → Type 0
NoDollar = All (λ c. c ≢ b'$')

split_none : (s : Str) → NoDollar s → split_on b'$' s ≡ s ∷ []
unfolding split_on
split_none [] h = refl
split_none (c ∷ s) h = ground (arith, split_none s h.1)

split_first : (s t : Str) → NoDollar s → split_on b'$' (s ++ (b'$' ∷ t)) ≡ s ∷ split_on b'$' t
unfolding split_on
split_first [] t h = refl
split_first (c ∷ s) t h = ground (arith, split_first s t h.1)

-- What is relied on of base64 and PBKDF2: decoding undoes encoding, no text is encoded with a "$", and a
-- key of 32 bytes has that length.
pub record IsSound (k : Crypto) : Type 0 where
  pub decodes : (s : Str) → k.decode (k.encode s) ≡ some s
  pub no_dollar : (s : Str) → All (λ c. c ≢ b'$') (k.encode s)
  pub key_length :
      (password salt : Str) (n size : ℕ) {key : Str}
      → k.derive password salt n size ≡ some key
      → length key ≡ size

-- The parts of a stored password.
split_stored :
    (salt key : Str)
    → NoDollar salt
    → NoDollar key
    → split_on b'$' (stored_password salt key) ≡ text "pbkdf2" ∷ text "210000" ∷ salt ∷ key ∷ []
unfolding stored_password
split_stored salt key p q =
    let rest : split_on b'$' (salt ++ (b'$' ∷ key)) ≡ salt ∷ key ∷ [] =
      split_first salt key p ∙ ap (λ l. salt ∷ l) (split_none key q) in
    let iter : split_on b'$' (text "210000" ++ (b'$' ∷ (salt ++ (b'$' ∷ key))))
        ≡ text "210000" ∷ salt ∷ key ∷ [] =
      split_first (text "210000") (salt ++ (b'$' ∷ key)) (ground arith)
      ∙ ap (λ l. text "210000" ∷ l) rest in
    split_first (text "pbkdf2") (text "210000" ++ (b'$' ∷ (salt ++ (b'$' ∷ key)))) (ground arith)
    ∙ ap (λ l. text "pbkdf2" ∷ l) iter

reads_iterations : scan_positive (text "210000") ≡ some iterations
unfolding scan_positive scan_digits is_digit trim_space trim_by trim_right drop_while is_space
reads_iterations = refl

stored-not-blank : (salt key : Str) → is_blank (stored_password salt key) ≡ false
unfolding is_blank stored_password trim_space trim_by drop_while is_space is_empty
stored-not-blank salt key = rw (trim_right-cons is_space b'p' _ refl) refl

or_io-ok : (o : Option Str) {s : Str} → or_io o ≡ ok s → o ≡ some s
unfolding or_io
or_io-ok none h = cc
or_io-ok (some t) h = ground arith

-- The four parts check when the key was derived from the password.
check_parts_lem :
    (k : Crypto) (password salt key : Str)
    → IsSound k
    → k.derive password salt iterations 32 ≡ some key
    → check_parts k password (text "pbkdf2" ∷ text "210000" ∷ k.encode salt ∷ k.encode key ∷ [])
      ≡ true
unfolding check_parts check_decoded key_matches
check_parts_lem k password salt key sound derived =
    let size = sound.key_length password salt iterations 32 derived in
    rw (str_eq_refl (text "pbkdf2")) (
      rw reads_iterations
        (rw (sound.decodes salt) (rw (sound.decodes key) (rw size (rw derived (str_eq_refl key))))))

-- A password that `hashPassword` has hashed passes `checkPassword` against the hash, if decoding undoes
-- encoding, no encoded text has a "$" and a derived key has the length asked for.
pub check_password-hash_password :
    (k : Crypto) (password : Str) (w : World) {stored : Str} {w' : World}
    → IsSound k
    → hash_password k password w ≡ (ok stored, w')
    → check_password k stored password ≡ true
unfolding hash_password check_password
check_password-hash_password k password w {stored} {w'} sound h =
    let salt = w.env.random w.step in
    let h₁ = after_random w _ h in
    let (key, p, h₂) = after_lift (tick w) (or_io (k.derive password salt iterations 32)) _ h₁ in
    let (e, v) = after_pure (stored_password (k.encode salt) (k.encode key)) (tick w) h₂ in
    let parts =
      split_stored (k.encode salt) (k.encode key) (sound.no_dollar salt) (sound.no_dollar key) in
    rw e (
      rw (stored-not-blank (k.encode salt) (k.encode key))
        (rw parts (check_parts_lem k password salt key sound (or_io-ok _ p))))
