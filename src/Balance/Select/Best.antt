-- ===== src/Balance/Select/Best.antt =====
-- The account that is dispatched is close to the best one.
use mathlib.Core.List.{Mem, mem-cons, mem-cons_self, mem-cons_of_mem, not-mem-nil}
use mathlib.Core.List.Perm
use mathlib.Core.Logic.Or
use native.Mathlib.Bridge.{le_prop}
use cube.Prelude.{
  ℕ, zero, suc, ◌+◌, ◌*◌, get_elem?, ap, ◌≤◌, ◌<◌, ◌≡◌, refl, some, List, [], ◌∷◌, arith, length,
  All, All-map, Str, ltb, false, if-elim, Option-cases, inl, inr,
}
use cube.Balance.{score_epsilon, same_load_balance_score}
use cube.Balance.Select.{
  Candidate, less, chosen_index, sort_slice, choose, pick, sort_keys, insertion_limit, the_choice,
}
use cube.Prelude.Sort.{sort_by, sort_by-Perm, length-sort_by, All-sort_by}
use mathlib.Core.Option.{some-injective}
use cube.Balance.Select.Drift.{sort_by-Falls, Within, Falls-Within}
use cube.Balance.Select.Rotation.{choose-same, get_elem?-All}

not_beyond : (n : ℕ) → n ≤ 12 → ltb insertion_limit n ≡ false
not_beyond n h = ground arith

module _ {ℓ} {A : Type ℓ} where
  Within-mem :
      (b : ℕ) (xs : List (Candidate A)) {c : Candidate A} → Within b xs → Mem c xs → c.score ≤ b
  Within-mem b [] h m = absurd (not-mem-nil m)
  Within-mem b (x ∷ xs) h m = Or.elim le_prop (mem-cons.0 m) (λ e. rw e h.0) (Within-mem b xs h.1)

  Within-of_mem :
      (b : ℕ) (xs : List (Candidate A)) → ((c : Candidate A) → Mem c xs → c.score ≤ b) → Within b xs
  Within-of_mem b [] h = tt
  Within-of_mem b (x ∷ xs) h =
      (h x mem-cons_self, Within-of_mem b xs (λ c m. h c (mem-cons_of_mem x m)))

  sort_slice-sort_by :
      (long : List (Str × ℕ) → List ℕ) (xs : List (Candidate A))
      → length xs ≤ 12
      → sort_slice long xs ≡ sort_by less xs
  unfolding sort_slice
  sort_slice-sort_by long xs h = rw (not_beyond (length xs) h) refl

  get_elem?-Mem :
      (xs : List (Candidate A)) (i : ℕ) {c : Candidate A} → get_elem? xs i ≡ some c → Mem c xs
  get_elem?-Mem [] i h = cc
  get_elem?-Mem (x ∷ xs) zero h = rw (some-injective _ _ h) mem-cons_self
  get_elem?-Mem (x ∷ xs) (suc i) {c} h = mem-cons_of_mem x (get_elem?-Mem xs i {c = c} h)

  pub All-Mem : (xs : List (Candidate A)) → All (λ c. Mem c xs) xs
  All-Mem [] = tt
  All-Mem (x ∷ xs) = (mem-cons_self, All-map (λ c m. mem-cons_of_mem x m) xs (All-Mem xs))

  -- A choice from the sorted candidates that is one of them and close to the best.
  pub record Chosen (long : List (Str × ℕ) → List ℕ) (last : Str) (xs : List (Candidate A))
      : Type ℓ where
    pub candidate : Candidate A
    pub chosen : choose last (sort_slice long xs) ≡ some candidate
    pub known : Mem candidate xs
    pub near : Within (candidate.score + length xs * score_epsilon) xs

  choose_sorted :
      (long : List (Str × ℕ) → List ℕ) (last : Str) (xs ys : List (Candidate A))
      → length xs ≤ 12
      → sort_by less xs ≡ ys
      → 0 < length xs
      → Chosen long last xs
  choose_sorted long last xs [] few e h =
      absurd (omega (arith, length-sort_by less xs, ap length e))
  choose_sorted long last xs (y ∷ ys) few e h =
      let (c, chosen, at, same) = choose-same last y ys in
      let perm = sort_by-Perm less xs in
      let count : suc (length ys) ≡ length xs =
        omega (arith, length-sort_by less xs, ap length e) in
      let close : y.score ≤ c.score + score_epsilon =
        unfold same_load_balance_score in ground arith in
      let b = c.score + length xs * score_epsilon in
      let within = Falls-Within b y ys (rw e at (sort_by-Falls xs)) (omega arith) in
      record {
        candidate = c;
        chosen = rw (sort_slice-sort_by long xs few) (rw e chosen);
        known = (Perm.mem_iff perm).0 (rw e (get_elem?-Mem (y ∷ ys) _ {c = c} at));
        near =
            Within-of_mem b xs
              (λ d m. Within-mem b (y ∷ ys) {c = d} within (rw e at ((Perm.mem_iff perm).1 m)));
      }

  -- When there are from one to twelve candidates, one is chosen from the sorted candidates whatever the
  -- last account was. It is one of the candidates given, and no candidate scores more than it by above
  -- one epsilon for each candidate.
  pub choose-sort_slice :
      (long : List (Str × ℕ) → List ℕ) (last : Str) (xs : List (Candidate A))
      → 0 < length xs
      → length xs ≤ 12
      → Chosen long last xs
  choose-sort_slice long last xs h few = choose_sorted long last xs (sort_by less xs) few refl h

-- Sorting keeps what holds of every candidate, and a choice is one of the sorted.
module _ {ℓ κ} {A : Type ℓ} (P : Candidate A → Type κ) where
  All-pick : (xs : List (Candidate A)) (is : List ℕ) → All P xs → All P (pick xs is)
  unfolding pick
  All-pick xs [] a = tt
  All-pick xs (i ∷ is) a = elim (Option-cases (get_elem? xs i)) [
    | inl e ↦ rw (e, All) (All-pick xs is a)
    | inr (c, e) ↦ rw (e, All) (get_elem?-All P xs i {a = c} a e, All-pick xs is a)
  ]

  All-sort_slice :
      (long : List (Str × ℕ) → List ℕ) (xs : List (Candidate A))
      → All P xs
      → All P (sort_slice long xs)
  unfolding sort_slice
  All-sort_slice long xs a =
      if-elim (All P) (ltb insertion_limit (length xs)) (λ h. All-pick xs (long (sort_keys xs)) a)
        (λ h. All-sort_by less P xs a)

  -- When the sorted candidates are none, the first one given is taken.
  pub All-the_choice :
      (long : List (Str × ℕ) → List ℕ) (last : Str) (x : Candidate A) (xs : List (Candidate A))
      → All P (x ∷ xs)
      → P (the_choice x (choose last (sort_slice long (x ∷ xs))))
  unfolding the_choice choose
  All-the_choice long last x xs a =
      let sorted = sort_slice long (x ∷ xs) in
      elim (Option-cases (get_elem? sorted (chosen_index last sorted))) [
        | inl e ↦ rw e a.0
        | inr (c, e) ↦ rw e (
            get_elem?-All P sorted (chosen_index last sorted) {a = c}
              (All-sort_slice long (x ∷ xs) a) e)
      ]
