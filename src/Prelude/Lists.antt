-- ===== src/Prelude/Lists.antt =====
-- Lists measured and indexed by native numbers, under the library's names.
use Prim.Native.Nat.{ℕ, zero, suc, ◌+◌, ◌≤◌}
use mathlib.Core.Path.{◌≡◌, refl, ap, sym, ◌∙◌}
use mathlib.Core.Logic.{inl, inr}
use mathlib.Core.Bool.{Bool, true, false}
use mathlib.Core.List.{List, [], ◌∷◌, ◌++◌}
use mathlib.Core.Option.{Option, none, some, some-injective}
use native.Mathlib.Omega.{arith}
use package.cube.Prelude.Tests.{if◌then◌else◌, if-elim, Bool-cases}

module _ {ℓ} {A : Type ℓ} where
  abbrev pub length : List A → ℕ
  length [] = 0
  length (x ∷ xs) = suc (length xs)

  abbrev pub get_elem? : List A → ℕ → Option A
  get_elem? [] i = none
  get_elem? (x ∷ xs) zero = some x
  get_elem? (x ∷ xs) (suc i) = get_elem? xs i

  -- A write out of bounds changes nothing.
  abbrev pub set : List A → ℕ → A → List A
  set [] i v = []
  set (x ∷ xs) zero v = v ∷ xs
  set (x ∷ xs) (suc i) v = x ∷ set xs i v

  abbrev pub take : ℕ → List A → List A
  take zero xs = []
  take (suc n) [] = []
  take (suc n) (x ∷ xs) = x ∷ take n xs

  -- The elements that pass the test, in order: a loop that skips the others by `continue`.
  unfoldable pub select : (A → Bool) → List A → List A
  select p [] = []
  select p (x ∷ xs) = if p x then x ∷ select p xs else select p xs

  -- Does some element pass the test?
  unfoldable pub exists_by : (A → Bool) → List A → Bool
  exists_by p [] = false
  exists_by p (x ∷ xs) = if p x then true else exists_by p xs

  -- The first element that passes the test.
  unfoldable pub find_by : (A → Bool) → List A → Option A
  find_by p [] = none
  find_by p (x ∷ xs) = if p x then some x else find_by p xs

  -- Change the first element that passes the test: a loop that ends by `break`.
  unfoldable pub update_first : (A → Bool) → (A → A) → List A → List A
  update_first p f [] = []
  update_first p f (x ∷ xs) = if p x then f x ∷ xs else x ∷ update_first p f xs

  abbrev pub All {κ} : (A → Type κ) → List A → Type κ
  All P [] = Unit
  All P (x ∷ xs) = P x × All P xs

  pub length-append : (xs ys : List A) → length (xs ++ ys) ≡ length xs + length ys
  length-append [] ys = omega arith
  length-append (x ∷ xs) ys = omega (arith, length-append xs ys)

module _ {ℓ κ} {A : Type ℓ} where
  pub All-append : (P : A → Type κ) (xs ys : List A) → All P xs → All P ys → All P (xs ++ ys)
  All-append P [] ys a b = b
  All-append P (x ∷ xs) ys a b = (a.0, All-append P xs ys a.1 b)

  pub All-map {μ} :
      {P : A → Type κ} {Q : A → Type μ} (f : (x : A) → P x → Q x) (xs : List A)
      → All P xs
      → All Q xs
  All-map f [] a = tt
  All-map f (x ∷ xs) a = (f x a.0, All-map f xs a.1)

  pub All-take : (P : A → Type κ) (n : ℕ) (xs : List A) → All P xs → All P (take n xs)
  All-take P zero xs a = tt
  All-take P (suc n) [] a = tt
  All-take P (suc n) (x ∷ xs) a = (a.0, All-take P n xs a.1)

module _ {ℓ} {A : Type ℓ} where
  pub length-take-le : (n : ℕ) (xs : List A) → length (take n xs) ≤ n
  length-take-le zero xs = omega arith
  length-take-le (suc n) [] = omega arith
  length-take-le (suc n) (x ∷ xs) = omega (arith, length-take-le n xs)

-- Two lists of one length, related place by place.
abbrev pub All2 {ℓ} : {A : Type ℓ} → (A → A → Type 0) → List A → List A → Type 0
All2 R [] [] = Unit
All2 R [] (y ∷ ys) = ⊥
All2 R (x ∷ xs) [] = ⊥
All2 R (x ∷ xs) (y ∷ ys) = R x y × All2 R xs ys

module _ {ℓ} {A : Type ℓ} where
  pub All2-refl : (R : A → A → Type 0) → ((x : A) → R x x) → (xs : List A) → All2 R xs xs
  All2-refl R r [] = tt
  All2-refl R r (x ∷ xs) = (r x, All2-refl R r xs)

  pub All2-trans :
      (R S T : A → A → Type 0)
      → ((x y z : A) → R x y → S y z → T x z)
      → (xs ys zs : List A) → All2 R xs ys
      → All2 S ys zs
      → All2 T xs zs
  All2-trans R S T f [] [] [] a b = tt
  All2-trans R S T f [] [] (z ∷ zs) a b = absurd b
  All2-trans R S T f [] (y ∷ ys) zs a b = absurd a
  All2-trans R S T f (x ∷ xs) [] zs a b = absurd a
  All2-trans R S T f (x ∷ xs) (y ∷ ys) [] a b = absurd b
  All2-trans R S T f (x ∷ xs) (y ∷ ys) (z ∷ zs) a b =
      (f x y z a.0 b.0, All2-trans R S T f xs ys zs a.1 b.1)

  pub All2-update_first :
      (R : A → A → Type 0) (p : A → Bool) (f : A → A)
      → ((x : A) → R x x)
      → ((x : A) → p x ≡ true → R x (f x))
      → (xs : List A) → All2 R xs (update_first p f xs)
  unfolding update_first
  All2-update_first R p f r s [] = tt
  All2-update_first R p f r s (x ∷ xs) =
      if-elim (λ l. All2 R (x ∷ xs) l) (p x) (λ h. (s x h, All2-refl R r xs))
        (λ h. (r x, All2-update_first R p f r s xs))

module _ {ℓ} {A : Type ℓ} where
  -- What is found passes the test, and is one of the selected.
  pub find_by-some : (p : A → Bool) (xs : List A) {a : A} → find_by p xs ≡ some a → p a ≡ true
  unfolding find_by
  find_by-some p [] h = cc
  find_by-some p (x ∷ xs) {a} h = elim (Bool-cases (p x)) [
    | inl e ↦ ap p (sym (some-injective x a (rw e at h))) ∙ e
    | inr e ↦ find_by-some p xs (rw e at h)
  ]

  pub find_by-select :
      (p q : A → Bool) (xs : List A) {a : A} → find_by p (select q xs) ≡ some a → q a ≡ true
  unfolding find_by select
  find_by-select p q [] h = cc
  find_by-select p q (x ∷ xs) {a} h = elim (Bool-cases (q x)) [
    | inl e ↦ elim (Bool-cases (p x)) [
      | inl f ↦ ap q (sym (some-injective x a (rw f at (rw e at h)))) ∙ e
      | inr f ↦ find_by-select p q xs (rw f at (rw e at h))
    ]
    | inr e ↦ find_by-select p q xs (rw e at h)
  ]

  -- An element at the end is found when no one before it is.
  pub find_by-append :
      (p : A → Bool) (xs : List A) (a : A)
      → exists_by p xs ≡ false
      → p a ≡ true
      → find_by p (xs ++ a ∷ []) ≡ some a
  unfolding find_by exists_by
  find_by-append p [] a h e = rw e refl
  find_by-append p (x ∷ xs) a h e = elim (Bool-cases (p x)) [
    | inl f ↦ cc (rw f at h)
    | inr f ↦ rw f (find_by-append p xs a (rw f at h) e)
  ]
