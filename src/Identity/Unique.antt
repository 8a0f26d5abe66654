-- ===== src/Identity/Unique.antt =====
-- `uniqueFromUsed` of internal/manager/identity.go: the id is unused and fits the pattern.
use cube.Prelude.{
  ℕ, zero, suc, ◌+◌, ◌-◌, ◌≤◌, ◌<◌, ◌≡◌, refl, ◌⊎◌, inl, inr, true, false, not, ◌&&◌, none, some,
  [], ◌∷◌, ◌++◌, List, arith, length, length-append, take, All, All-append, All-map, All-take,
  length-take-le, leb, ltb, Bool-cases, if-elim, Str, text, contains, is_empty, &&_true,
}
use cube.Prelude.Decimal.{decimal, decimal-length, decimal-All}
use cube.Identity.{
  is_alphanumeric, is_joiner, all_id_chars, matches_account_id, sanitize_account_id, candidate,
  first_unused, or_profile, or_stamp, unique_from_used,
}
use cube.Identity.Sanitize.{
  IdChar, Trimmed, sanitize_account_id-Trimmed, all_id_chars-All, All-all_id_chars,
}

le-cases : (i k : ℕ) → i ≤ k → (i ≡ k) ⊎ (suc i ≤ k)
le-cases i k h = grind arith

-- The first candidate that is not used, or all of them are.
first_unused-unused :
    (rounds i : ℕ) (base : Str) (used : List Str)
    → ((id : Str) × (k : ℕ) × (first_unused rounds i base used ≡ some id)
        × (id ≡ candidate base k)
        × (k < i + rounds)
        × (contains used id ≡ false))
      ⊎ ((first_unused rounds i base used ≡ none)
          × ((k : ℕ) → i ≤ k → k < i + rounds → contains used (candidate base k) ≡ true))
unfolding first_unused
first_unused-unused zero i base used = inr (refl, λ k a b. absurd (omega arith))
first_unused-unused (suc rounds) i base used =
    elim (Bool-cases (contains used (candidate base i))) [
      | inr e ↦ inl (candidate base i, i, rw e, refl, omega arith, e)
      | inl e ↦ elim (first_unused-unused rounds (suc i) base used) [
        | inl (id, k, f, g, l, h) ↦ inl (id, k, rw e f, g, omega arith, h)
        | inr (f, all) ↦ inr (rw e f, λ k a b. later e all k a b)
      ]
    ]
  where
    later :
        contains used (candidate base i) ≡ true
        → ((k : ℕ) → suc i ≤ k → k < suc i + rounds → contains used (candidate base k) ≡ true)
        → (k : ℕ) → i ≤ k
        → k < i + suc rounds
        → contains used (candidate base k) ≡ true
    later e all k a b = elim (le-cases i k a) [
      | inl same ↦ rw (← same) e
      | inr more ↦ all k more (omega arith)
    ]

digit-IdChar : (c : ℕ) → (48 ≤ c) × (c ≤ 57) → IdChar c
unfolding is_alphanumeric is_joiner
digit-IdChar c h = ground arith

dash-IdChar : IdChar b'-'
unfolding is_alphanumeric is_joiner
dash-IdChar = refl

matches_of :
    (c : ℕ) (t : Str)
    → is_alphanumeric c ≡ true
    → All IdChar t
    → length t ≤ 63
    → matches_account_id (c ∷ t) ≡ true
unfolding matches_account_id
matches_of c t h a l = ground (arith, all_id_chars-All t a)

suffix-All : (i : ℕ) → All IdChar (b'-' ∷ decimal i)
suffix-All i = (dash-IdChar, All-map digit-IdChar (decimal i) (decimal-All i))

-- A candidate of an id fits the pattern: it keeps the head, and has 64 characters at most.
candidate-head :
    (c : ℕ) (s : Str) (i : ℕ)
    → i < 1000
    → is_alphanumeric c ≡ true
    → All IdChar s
    → length s ≤ 63
    → matches_account_id (candidate (c ∷ s) i) ≡ true
unfolding candidate
candidate-head c s i h ca sa l =
    let n = length (decimal i) in
    let few : n ≤ 3 = decimal-length i h in
    elim (Bool-cases (ltb 64 (suc (length s) + suc n))) [
      | inl e ↦
          let room : 64 - suc n ≡ suc (63 - suc n) = omega arith in
          rw e (
            rw room (
              matches_of c (take (63 - suc n) s ++ b'-' ∷ decimal i) ca
                (All-append IdChar (take (63 - suc n) s) (b'-' ∷ decimal i)
                  (All-take IdChar (63 - suc n) s sa) (suffix-All i))
                (omega (
                  arith,
                  length-append (take (63 - suc n) s) (b'-' ∷ decimal i),
                  length-take-le (63 - suc n) s,
                ))))
      | inr e ↦ rw e (
          matches_of c (s ++ b'-' ∷ decimal i) ca
            (All-append IdChar s (b'-' ∷ decimal i) sa (suffix-All i))
            (ground (arith, length-append s (b'-' ∷ decimal i))))
    ]

candidate-matches :
    (base : Str) (i : ℕ)
    → i < 1000
    → matches_account_id base ≡ true
    → matches_account_id (candidate base i) ≡ true
unfolding matches_account_id
candidate-matches [] i h m = cc
candidate-matches (c ∷ s) i h m =
    let parts = &&_true (is_alphanumeric c && all_id_chars s) (leb (length s) 63) m in
    let heads = &&_true (is_alphanumeric c) (all_id_chars s) parts.0 in
    candidate-head c s i h heads.0 (All-all_id_chars s heads.1) (ground arith)

or_profile-matches : (s : Str) → Trimmed s → matches_account_id (or_profile s) ≡ true
unfolding or_profile matches_account_id is_empty
or_profile-matches [] t = refl
or_profile-matches (c ∷ s) (inl e) = cc
or_profile-matches (c ∷ s) (inr e) = e

-- The id that `uniqueFromUsed` returns is unused and fits `accountIDPattern`; only where the base and
-- all its 998 candidates are used is it the stamped fallback.
abbrev pub Unique : Str → Str → List Str → Str → Type 0
Unique stamp base used id =
    ((contains used id ≡ false) × (matches_account_id id ≡ true))
    ⊎ ((id ≡ text "profile-" ++ stamp)
        × (contains used base ≡ true)
        × ((k : ℕ) → 2 ≤ k → k < 1000 → contains used (candidate base k) ≡ true))

first_unused-Unique :
    (stamp base : Str) (used : List Str)
    → matches_account_id base ≡ true
    → contains used base ≡ true
    → Unique stamp base used (or_stamp stamp (first_unused 998 2 base used))
unfolding or_stamp
first_unused-Unique stamp base used m taken = elim (first_unused-unused 998 2 base used) [
  | inl (id, k, e, f, l, u) ↦ inl (rw e u, rw e (rw f (candidate-matches base k l m)))
  | inr (e, all) ↦ inr (rw e, taken, all)
]

-- The id made from any base is unused and fits `accountIDPattern`; or it is the stamped fallback, and
-- then the sanitized base and all its candidates from 2 to 999 are used.
pub unique_from_used-Unique :
    (stamp base : Str) (used : List Str)
    → Unique stamp (or_profile (sanitize_account_id base)) used (unique_from_used stamp base used)
unfolding unique_from_used
unique_from_used-Unique stamp base used =
    let b = or_profile (sanitize_account_id base) in
    let fits = or_profile-matches (sanitize_account_id base) (sanitize_account_id-Trimmed base) in
    if-elim (Unique stamp b used) (not (contains used b)) (λ e. inl (ground arith, fits))
      (λ e. first_unused-Unique stamp b used fits (ground arith))
