-- ===== src/Identity/Sanitize.antt =====
-- `sanitizeAccountID` of internal/manager/identity.go against `accountIDPattern`.
use cube.Prelude.{
  ℕ, ◌+◌, ◌≤◌, ◌<◌, ◌≡◌, refl, ap, ◌⊎◌, inl, inr, Bool, true, false, ◌||◌, [], ◌∷◌, arith, length,
  length-append, All, All-append, All-map, leb, if◌then◌else◌, Bool-cases, Str, trim_right, trim_by,
  trim_space, is_empty, is_space, &&_true,
}
use cube.Prelude.Trim.{trim_by-cases, trim_by-All, trim_by-length, trim_by_idem, trim_by-none}
use cube.Identity.{
  is_alphanumeric, is_joiner, all_id_chars, matches_account_id, sanitize_char, sanitize_loop,
  with_profile_prefix, sanitize_account_id,
}

abbrev pub IdChar : ℕ → Type 0
IdChar c = (is_alphanumeric c || is_joiner c) ≡ true

pub all_id_chars-All : (s : Str) → All IdChar s → all_id_chars s ≡ true
unfolding all_id_chars
all_id_chars-All [] a = refl
all_id_chars-All (c ∷ s) a = ground (arith, all_id_chars-All s a.1)

pub All-all_id_chars : (s : Str) → all_id_chars s ≡ true → All IdChar s
unfolding all_id_chars
All-all_id_chars [] h = tt
All-all_id_chars (c ∷ s) h =
    let both = &&_true (is_alphanumeric c || is_joiner c) (all_id_chars s) h in
    (both.0, All-all_id_chars s both.1)

sanitize_char-All : (c : ℕ) → All IdChar (sanitize_char c)
unfolding sanitize_char
sanitize_char-All c = ground arith

sanitize_char-length : (c : ℕ) → length (sanitize_char c) ≤ 1
unfolding sanitize_char
sanitize_char-length c = ground arith

if-All {κ} :
    (P : ℕ → Type κ) (b : Bool) (s t : Str) → All P s → All P t → All P (if b then s else t)
if-All P true s t x y = x
if-All P false s t x y = y

no_prefix_nil : with_profile_prefix [] ≡ []
unfolding with_profile_prefix
no_prefix_nil = refl

sanitize_loop-All : (n : ℕ) (s : Str) → All IdChar (sanitize_loop n s)
unfolding sanitize_loop
sanitize_loop-All n [] = tt
sanitize_loop-All n (c ∷ s) = All-append IdChar (sanitize_char c) _ (sanitize_char-All c) (
    if-All IdChar (leb 64 (n + length (sanitize_char c))) []
      (sanitize_loop (n + length (sanitize_char c)) s) tt
      (sanitize_loop-All (n + length (sanitize_char c)) s))

sanitize_loop-length : (n : ℕ) (s : Str) → n < 64 → n + length (sanitize_loop n s) ≤ 64
unfolding sanitize_loop
sanitize_loop-length n [] h = omega arith
sanitize_loop-length n (c ∷ s) h = ground (
  arith,
  sanitize_char-length c,
  sanitize_loop-length (n + length (sanitize_char c)) s,
  length-append (sanitize_char c) (sanitize_loop (n + length (sanitize_char c)) s),
  length-append (sanitize_char c) [],
)

id_of_parts :
    (h : ℕ) (t : Str)
    → is_joiner h ≡ false
    → IdChar h
    → All IdChar t
    → length (h ∷ t) ≤ 64
    → matches_account_id (h ∷ t) ≡ true
unfolding matches_account_id
id_of_parts h t f c a l = ground (arith, all_id_chars-All t a)

no_prefix : (h : ℕ) (t : Str) → is_joiner h ≡ false → IdChar h → with_profile_prefix (h ∷ t) ≡ h ∷ t
unfolding with_profile_prefix
no_prefix h t f c = ground arith

-- What is left of a text of id characters, 64 at most, is empty or fits the pattern.
abbrev pub Trimmed : Str → Type 0
Trimmed r = (r ≡ []) ⊎ (matches_account_id r ≡ true)

Trimmed-matches :
    (s : Str)
    → All IdChar s
    → length s ≤ 64
    → (with_profile_prefix (trim_by is_joiner s) ≡ trim_by is_joiner s)
      × Trimmed (trim_by is_joiner s)
Trimmed-matches s a len = elim (trim_by-cases is_joiner s) [
  | inl e ↦ rw e (no_prefix_nil, inl refl)
  | inr (h, t, e, f) ↦
      let chars : All IdChar (h ∷ trim_right is_joiner t) =
        rw e at (trim_by-All IdChar is_joiner s a) in
      let short : length (h ∷ trim_right is_joiner t) ≤ 64 =
        omega (arith, ap length e, trim_by-length is_joiner s) in
      rw e (
        no_prefix h (trim_right is_joiner t) f chars.0,
        inr (id_of_parts h (trim_right is_joiner t) f chars.0 chars.1 short),
      )
]

written-Trimmed :
    (v : Str)
    → let r = trim_by is_joiner (sanitize_loop 0 v) in (with_profile_prefix r ≡ r) × Trimmed r
written-Trimmed v =
    Trimmed-matches (sanitize_loop 0 v) (sanitize_loop-All 0 v)
      (omega (arith, sanitize_loop-length 0 v (omega arith)))

-- The result of `sanitizeAccountID` is the trimmed text that the loop wrote: no prefix is ever put.
sanitize_account_id-shape :
    (v : Str)
    → (sanitize_account_id v ≡ [])
      ⊎ (sanitize_account_id v ≡ trim_by is_joiner (sanitize_loop 0 (trim_space v)))
unfolding sanitize_account_id
sanitize_account_id-shape v = elim (Bool-cases (is_empty (trim_space v))) [
  | inl e ↦ inl (rw e)
  | inr e ↦ inr (rw e (written-Trimmed (trim_space v)).0)
]

-- A sanitized id is empty or it fits `accountIDPattern`.
pub sanitize_account_id-Trimmed : (v : Str) → Trimmed (sanitize_account_id v)
sanitize_account_id-Trimmed v = elim (sanitize_account_id-shape v) [
  | inl e ↦ inl e
  | inr e ↦ rw e (written-Trimmed (trim_space v)).1
]

-- Ids pass through unchanged.
IdChar-not-space : (c : ℕ) → IdChar c → is_space c ≡ false
unfolding is_space is_alphanumeric is_joiner
IdChar-not-space c h = ground arith

sanitize_char-id : (c : ℕ) → IdChar c → sanitize_char c ≡ c ∷ []
unfolding sanitize_char
sanitize_char-id c h = ground arith

sanitize_loop-id : (n : ℕ) (s : Str) → All IdChar s → n + length s ≤ 64 → sanitize_loop n s ≡ s
unfolding sanitize_loop
sanitize_loop-id n [] a h = refl
sanitize_loop-id n (c ∷ []) a h = ground (arith, sanitize_char-id c a.0)
sanitize_loop-id n (c ∷ d ∷ s) a h =
    ground (arith, sanitize_char-id c a.0, sanitize_loop-id (n + 1) (d ∷ s) a.1)

unspaced : (r : Str) → All IdChar r → trim_space r ≡ r
unfolding trim_space
unspaced r a = trim_by-none is_space r (All-map IdChar-not-space r a)

sanitized-nil : sanitize_account_id [] ≡ []
unfolding sanitize_account_id
sanitized-nil = refl

if_empty : (s : Str) → (if is_empty s then [] else s) ≡ s
unfolding is_empty
if_empty [] = refl
if_empty (c ∷ s) = refl

sanitized-fixed :
    (u : Str)
    → All IdChar u
    → length u ≤ 64
    → sanitize_account_id (trim_by is_joiner u) ≡ trim_by is_joiner u
sanitized-fixed u a len =
    let r : Str = trim_by is_joiner u in
    let chars : All IdChar r = trim_by-All IdChar is_joiner u a in
    let same : trim_space r ≡ r = unspaced r chars in
    let loop : sanitize_loop 0 r ≡ r =
      sanitize_loop-id 0 r chars (omega (arith, trim_by-length is_joiner u)) in
    unfold sanitize_account_id in
    rw same (rw loop (rw (trim_by_idem is_joiner u) (rw (Trimmed-matches u a len).0 (if_empty r))))

-- Sanitizing twice is sanitizing once.
pub sanitize_account_id_idem :
    (v : Str) → sanitize_account_id (sanitize_account_id v) ≡ sanitize_account_id v
sanitize_account_id_idem v = elim (sanitize_account_id-shape v) [
  | inl e ↦ rw e sanitized-nil
  | inr e ↦ rw e (
      sanitized-fixed (sanitize_loop 0 (trim_space v)) (sanitize_loop-All 0 (trim_space v))
        (omega (arith, sanitize_loop-length 0 (trim_space v) (omega arith))))
]
