-- ===== src/Balance/Select/Rotation.antt =====
-- The choice is always made, from the group at the front, and goes round it.
use mathlib.Core.Option.{some-injective}
use mathlib.Core.Path.{subst}
use cube.Lease.Lookup.{is_empty-nil}
use native.Mathlib.Nat.{mod-lt}
use cube.Prelude.{
  ℕ, zero, suc, ◌+◌, ◌%◌, ◌≤◌, ◌<◌, ◌≡◌, refl, ◌≢◌, true, Option, none, some, List, [], ◌∷◌, arith,
  length, get_elem?, All, if-elim, Str, str_eq_iff, str_eq_refl, is_empty,
}
use cube.Balance.{same_load_balance_score}
use cube.Balance.Select.{
  Candidate, same_prefix, load_balance_top_group_len, find_last, next_index, chosen_index, choose,
}

module _ {ℓ} {A : Type ℓ} where
  get_elem?-total : (xs : List A) (i : ℕ) → i < length xs → (a : A) × (get_elem? xs i ≡ some a)
  get_elem?-total [] i h = absurd (omega arith)
  get_elem?-total (x ∷ xs) zero h = (x, refl)
  get_elem?-total (x ∷ xs) (suc i) h = get_elem?-total xs i (omega arith)

module _ {ℓ} {A : Type ℓ} where
  same_prefix-le : (top : ℕ) (xs : List (Candidate A)) → same_prefix top xs ≤ length xs
  unfolding same_prefix
  same_prefix-le top [] = omega arith
  same_prefix-le top (x ∷ xs) = ground (arith, same_prefix-le top xs)

  same_prefix-same :
      (top : ℕ) (xs : List (Candidate A)) (i : ℕ) {c : Candidate A}
      → i < same_prefix top xs
      → get_elem? xs i ≡ some c
      → same_load_balance_score top c.score ≡ true
  unfolding same_prefix
  same_prefix-same top [] i h e = absurd (omega arith)
  same_prefix-same top (x ∷ xs) zero h e = ground arith
  same_prefix-same top (x ∷ xs) (suc i) {c} h e = same_prefix-same top xs i {c = c} (ground arith) e

  top_group-same :
      (x : Candidate A) (xs : List (Candidate A)) (i : ℕ) {c : Candidate A}
      → i < load_balance_top_group_len (x ∷ xs)
      → get_elem? (x ∷ xs) i ≡ some c
      → same_load_balance_score x.score c.score ≡ true
  unfolding load_balance_top_group_len
  top_group-same x xs zero h e = unfold same_load_balance_score in ground arith
  top_group-same x xs (suc i) {c} h e = same_prefix-same x.score xs i {c = c} (omega arith) e

  top_group_bounds :
      (x : Candidate A) (xs : List (Candidate A))
      → (0 < load_balance_top_group_len (x ∷ xs))
        × (load_balance_top_group_len (x ∷ xs) ≤ length (x ∷ xs))
  unfolding load_balance_top_group_len
  top_group_bounds x xs = (omega arith, omega (arith, same_prefix-le x.score xs))

next_index-lt : (top : ℕ) (i : Option ℕ) → 0 < top → next_index top i < top
unfolding next_index
next_index-lt top none h = h
next_index-lt top (some i) h = grind (arith, mod-lt)

module _ {ℓ} {A : Type ℓ} where
  chosen_index-lt :
      (last : Str) (x : Candidate A) (xs : List (Candidate A))
      → chosen_index last (x ∷ xs) < load_balance_top_group_len (x ∷ xs)
  unfolding chosen_index
  chosen_index-lt last x xs =
      let top = load_balance_top_group_len (x ∷ xs) in
      if-elim (λ i. i < top) (is_empty last) (λ h. (top_group_bounds x xs).0)
        (λ h. next_index-lt top (find_last last top (x ∷ xs)) (top_group_bounds x xs).0)

  -- From a list that is not empty a candidate is chosen, and it scores as the first one does.
  pub choose-same :
      (last : Str) (x : Candidate A) (xs : List (Candidate A))
      → (c : Candidate A) × (choose last (x ∷ xs) ≡ some c)
        × (get_elem? (x ∷ xs) (chosen_index last (x ∷ xs)) ≡ some c)
        × (same_load_balance_score x.score c.score ≡ true)
  unfolding choose
  choose-same last x xs =
      let i = chosen_index last (x ∷ xs) in
      let small = chosen_index-lt last x xs in
      let (c, e) = get_elem?-total (x ∷ xs) i (omega (arith, (top_group_bounds x xs).1)) in
      (c, e, e, top_group-same x xs i {c = c} small e)

-- No two candidates have the same id.
abbrev pub DistinctIds {ℓ} : {A : Type ℓ} → List (Candidate A) → Type 0
DistinctIds [] = Unit
DistinctIds (x ∷ xs) = All (λ c. c.id ≢ x.id) xs × DistinctIds xs

module _ {ℓ} {A : Type ℓ} where
  pub get_elem?-All {κ} :
      (P : A → Type κ) (xs : List A) (i : ℕ) {a : A} → All P xs → get_elem? xs i ≡ some a → P a
  get_elem?-All P [] i h e = cc
  get_elem?-All P (x ∷ xs) zero {a} h e = subst P (some-injective x a e) h.0
  get_elem?-All P (x ∷ xs) (suc i) h e = get_elem?-All P xs i h.1 e

module _ {ℓ} {A : Type ℓ} where
  find_last-index :
      (top i : ℕ) (xs : List (Candidate A)) {c : Candidate A}
      → DistinctIds xs
      → i < top
      → get_elem? xs i ≡ some c
      → find_last c.id top xs ≡ some i
  unfolding find_last
  find_last-index zero i xs d h e = absurd (omega arith)
  find_last-index (suc top) i [] d h e = cc
  find_last-index (suc top) zero (x ∷ xs) {c} d h e = ground (arith, str_eq_refl c.id)
  find_last-index (suc top) (suc i) (x ∷ xs) {c} d h e =
      let differ = get_elem?-All (λ y. y.id ≢ x.id) xs i {a = c} d.0 e in
      ground
        (arith, str_eq_iff x.id c.id, differ, find_last-index top i xs {c = c} d.1 (omega arith) e)

  -- After the candidate at place `i` of the front group comes the one at place `i + 1`, cyclically.
  pub chosen_index-next :
      (xs : List (Candidate A)) (i : ℕ) {c : Candidate A}
      → DistinctIds xs
      → i < load_balance_top_group_len xs
      → get_elem? xs i ≡ some c
      → c.id ≢ []
      → chosen_index c.id xs ≡ (i + 1) % load_balance_top_group_len xs
  unfolding chosen_index next_index
  chosen_index-next xs i {c} d h e named =
      let top = load_balance_top_group_len xs in
      let found = find_last-index top i xs {c = c} d h e in ground (arith, found, is_empty-nil c.id)

abbrev pub Named {ℓ} : {A : Type ℓ} → List (Candidate A) → Type 0
Named = All (λ c. c.id ≢ [])

module _ {ℓ} {A : Type ℓ} (x : Candidate A) (xs : List (Candidate A)) where
  abbrev all : List (Candidate A)
  all = x ∷ xs

  abbrev group : ℕ
  group = load_balance_top_group_len all

  -- When the last dispatched candidate is at place `i` of the front group, of candidates whose ids differ
  -- and are given, the one chosen is at the place `i + 1` of the group, cyclically.
  pub choose-next :
      (i : ℕ) {c : Candidate A}
      → DistinctIds all
      → Named all
      → i < group
      → get_elem? all i ≡ some c
      → (d : Candidate A) × (choose c.id all ≡ some d) × (get_elem? all ((i + 1) % group) ≡ some d)
  choose-next i {c} dist named h e =
      let (d, chosen, at, same) = choose-same c.id x xs in
      let next =
        chosen_index-next all i {c = c} dist h e
          (get_elem?-All (λ y. y.id ≢ []) all i {a = c} named e) in
      (d, chosen, rw next at at)
