-- ===== src/Balance/Select/Drift.antt =====
-- The sorted candidates: the same ones, and how far the first may lie below the best.
use mathlib.Core.List.{reverse, reverse_aux}
use cube.Prelude.{ℕ, ◌+◌, ◌*◌, ◌≤◌, ◌≡◌, true, false, List, [], ◌∷◌, arith, length, All, if-elim}
use cube.Balance.{same_load_balance_score, score_epsilon}
use cube.Balance.Select.{Candidate, less}
use cube.Prelude.Sort.{insert_back, insertion_sort, sort_by}

module _ {ℓ} {A : Type ℓ} where
  less-near : (x y : Candidate A) → less x y ≡ true → y.score ≤ x.score + score_epsilon
  unfolding less same_load_balance_score
  less-near x y h = ground arith

  not-less-near : (x y : Candidate A) → less x y ≡ false → x.score ≤ y.score + score_epsilon
  unfolding less same_load_balance_score
  not-less-near x y h = ground arith

  -- Newest first, each at most epsilon above the one before it.
  abbrev Near : List (Candidate A) → Type 0
  Near [] = Unit {0}
  Near (y ∷ []) = Unit {0}
  Near (y ∷ z ∷ ys) = (y.score ≤ z.score + score_epsilon) × Near (z ∷ ys)

  Near-tail : (y : Candidate A) (ys : List (Candidate A)) → Near (y ∷ ys) → Near ys
  Near-tail y [] h = tt
  Near-tail y (z ∷ ys) h = h.1

  -- `y` may stand in front of `ys` with `x` put in.
  insert_back-Near_below :
      (x y : Candidate A) (ys : List (Candidate A))
      → y.score ≤ x.score + score_epsilon
      → Near (y ∷ ys)
      → Near (y ∷ insert_back less x ys)
  unfolding insert_back
  insert_back-Near_below x y [] h n = (h, tt)
  insert_back-Near_below x y (z ∷ ys) h n =
      if-elim (λ l. Near (y ∷ l)) (less x z)
        (λ e. (n.0, insert_back-Near_below x z ys (less-near x z e) n.1))
        (λ e. (h, (not-less-near x z e, n.1)))

  insert_back-Near :
      (x : Candidate A) (ys : List (Candidate A)) → Near ys → Near (insert_back less x ys)
  unfolding insert_back
  insert_back-Near x [] n = tt
  insert_back-Near x (y ∷ ys) n =
      if-elim Near (less x y) (λ e. insert_back-Near_below x y ys (less-near x y e) n)
        (λ e. (not-less-near x y e, n))

  insertion_sort-Near :
      (done xs : List (Candidate A)) → Near done → Near (insertion_sort less done xs)
  unfolding insertion_sort
  insertion_sort-Near done [] n = n
  insertion_sort-Near done (x ∷ xs) n =
      insertion_sort-Near (insert_back less x done) xs (insert_back-Near x done n)

  -- In sorted order: each at most epsilon above the one before it.
  abbrev pub Falls : List (Candidate A) → Type 0
  Falls [] = Unit {0}
  Falls (y ∷ []) = Unit {0}
  Falls (y ∷ z ∷ ys) = (z.score ≤ y.score + score_epsilon) × Falls (z ∷ ys)

  reverse_aux-Falls :
      (y : Candidate A) (ys acc : List (Candidate A))
      → Near (y ∷ ys)
      → Falls (y ∷ acc)
      → Falls (reverse_aux ys (y ∷ acc))
  reverse_aux-Falls y [] acc n f = f
  reverse_aux-Falls y (z ∷ ys) acc n f = reverse_aux-Falls z ys (y ∷ acc) n.1 (n.0, f)

  reverse-Falls : (ys : List (Candidate A)) → Near ys → Falls (reverse ys)
  reverse-Falls [] n = tt
  reverse-Falls (y ∷ ys) n = reverse_aux-Falls y ys [] n tt

  pub sort_by-Falls : (xs : List (Candidate A)) → Falls (sort_by less xs)
  unfolding sort_by
  sort_by-Falls xs = reverse-Falls (insertion_sort less [] xs) (insertion_sort-Near [] xs tt)

  -- So nobody lies more than one epsilon for each place above the first.
  abbrev pub Within : ℕ → List (Candidate A) → Type 0
  Within bound = All (λ c. c.score ≤ bound)

  pub Falls-Within :
      (bound : ℕ) (y : Candidate A) (ys : List (Candidate A))
      → Falls (y ∷ ys)
      → y.score + length ys * score_epsilon ≤ bound
      → Within bound (y ∷ ys)
  Falls-Within bound y [] f h = (omega arith, tt)
  Falls-Within bound y (z ∷ ys) f h =
      (omega arith, Falls-Within bound z ys f.1 (omega (arith, f.0)))
