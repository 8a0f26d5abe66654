-- ===== src/Balance/Select.antt =====
-- internal/manager/lease.go: how `ClaimLease` and `SelectAccountForRun` choose among the candidates.
-- `less` is no order when scores are nearly equal, so the algorithm of `sort.Slice` matters: it is
-- written out where Go runs an insertion sort, and is a parameter where Go runs its pdqsort.
pub mod Drift
pub mod Rotation
pub mod Best
use cube.Prelude.{
  ℕ, zero, suc, ◌+◌, ◌%◌, ltb, Bool, true, false, not, ◌&&◌, Option, none, some, List, [], ◌∷◌,
  if◌then◌else◌, length, get_elem?, Str, str_eq, str_lt, is_empty,
}
use cube.Balance.{same_load_balance_score}
use cube.Prelude.Sort.{sort_by}

-- `account` is the AccountView in the one function and the Account with its index in the other.
pub record Candidate {ℓ} (A : Type ℓ) : Type ℓ where
  pub account : A
  pub id : Str
  pub score : ℕ

-- Go's maxInsertion: the most elements that `sort.Slice` sorts by insertion.
abbrev pub insertion_limit : ℕ
insertion_limit = 12

-- available[(i+1)%topLen]; the index is in range.
unfoldable pub next_index : ℕ → Option ℕ → ℕ
next_index top none = 0
next_index top (some i) = (i + 1) % top

module _ {ℓ} {A : Type ℓ} where
  -- The comparison of both functions: the higher score, and among the same the lower id.
  unfoldable pub less : Candidate A → Candidate A → Bool
  less a b =
      if not (same_load_balance_score a.score b.score)
      then ltb b.score a.score
      else str_lt a.id b.id

  -- What `less` reads of the candidates.
  abbrev pub sort_keys : List (Candidate A) → List (Str × ℕ)
  sort_keys [] = []
  sort_keys (x ∷ xs) = (x.id, x.score) ∷ sort_keys xs

  -- The elements at these indices.
  unfoldable pub pick : List (Candidate A) → List ℕ → List (Candidate A)
  pick xs [] = []
  pick xs (i ∷ is) =
      let rest = pick xs is in elim (get_elem? xs i) [ none ↦ rest | some x ↦ x ∷ rest ]

  -- `sort.Slice`: an insertion sort on up to twelve elements, and for more the order, as indices, that
  -- `long_sort` gives for what `less` reads.
  unfoldable pub sort_slice : (List (Str × ℕ) → List ℕ) → List (Candidate A) → List (Candidate A)
  unfolding pick
  sort_slice long_sort xs =
      if ltb insertion_limit (length xs)
      then pick xs (long_sort (sort_keys xs))
      else sort_by less xs

  -- `loadBalanceTopGroupLen`, from the second element on.
  unfoldable pub same_prefix : ℕ → List (Candidate A) → ℕ
  same_prefix top [] = 0
  same_prefix top (x ∷ xs) =
      if same_load_balance_score top x.score then suc (same_prefix top xs) else 0

  unfoldable pub load_balance_top_group_len : List (Candidate A) → ℕ
  unfolding same_prefix
  load_balance_top_group_len [] = 0
  load_balance_top_group_len (x ∷ xs) = suc (same_prefix x.score xs)

  -- The index of the last account among the first `n`.
  unfoldable pub find_last : Str → ℕ → List (Candidate A) → Option ℕ
  find_last last zero xs = none
  find_last last (suc n) [] = none
  find_last last (suc n) (x ∷ xs) =
      if str_eq x.id last
      then some 0
      else elim (find_last last n xs) [ none ↦ none | some i ↦ some (suc i) ]

  unfoldable pub chosen_index : Str → List (Candidate A) → ℕ
  unfolding next_index
  chosen_index last available =
      let top = load_balance_top_group_len available in
      if is_empty last then 0 else next_index top (find_last last top available)

  -- `none` when nothing is available.
  unfoldable pub choose : Str → List (Candidate A) → Option (Candidate A)
  unfolding chosen_index
  choose last available = get_elem? available (chosen_index last available)

-- The element that is taken; the first argument where there is none.
unfoldable pub the_choice {ℓ} : {A : Type ℓ} → A → Option A → A
the_choice x none = x
the_choice x (some c) = c
