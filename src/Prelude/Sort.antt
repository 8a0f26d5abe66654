-- ===== src/Prelude/Sort.antt =====
-- `sort.Slice`, as the insertion sort that Go runs on up to twelve elements, for any comparison.
use mathlib.Core.Path.{◌≡◌, refl}
use mathlib.Core.Bool.{Bool, true, false}
use mathlib.Core.List.{
  List, [], ◌∷◌, ◌++◌, reverse, reverse_aux, reverse_perm, Perm, perm_middle, append-nil,
}
use mathlib.Core.List.Perm
use Prim.Native.Nat.{suc, ◌+◌}
use native.Mathlib.Omega.{arith}
use package.cube.Prelude.Tests.{if◌then◌else◌, if-elim, Bool-cases}
use package.cube.Prelude.Lists.{length, All}
use mathlib.Core.Logic.{inl, inr}

module _ {ℓ} {A : Type ℓ} (less : A → A → Bool) where
  -- Swap the element back while it is less than the one before it. The list is the sorted part, last
  -- element first.
  unfoldable pub insert_back : A → List A → List A
  insert_back x [] = x ∷ []
  insert_back x (y ∷ ys) = if less x y then y ∷ insert_back x ys else x ∷ y ∷ ys

  unfoldable pub insertion_sort : List A → List A → List A
  insertion_sort done [] = done
  insertion_sort done (x ∷ xs) = insertion_sort (insert_back x done) xs

  unfoldable pub sort_by : List A → List A
  unfolding insertion_sort
  sort_by xs = reverse (insertion_sort [] xs)

  insert_back-Perm : (x : A) (ys : List A) → Perm (insert_back x ys) (x ∷ ys)
  unfolding insert_back
  insert_back-Perm x [] = Perm.refl (x ∷ [])
  insert_back-Perm x (y ∷ ys) =
      if-elim (λ l. Perm l (x ∷ y ∷ ys)) (less x y)
        (λ h. Perm.trans (Perm.cons y (insert_back-Perm x ys)) (Perm.swap x y ys))
        (λ h. Perm.refl (x ∷ y ∷ ys))

  insertion_sort-Perm : (done xs : List A) → Perm (insertion_sort done xs) (done ++ xs)
  unfolding insertion_sort
  insertion_sort-Perm done [] = rw append-nil (Perm.refl done)
  insertion_sort-Perm done (x ∷ xs) = Perm.trans (insertion_sort-Perm (insert_back x done) xs) (
      Perm.trans (Perm.append (insert_back-Perm x done) (Perm.refl xs))
        (Perm.symm (perm_middle done xs)))

  -- Sorting keeps the elements.
  pub sort_by-Perm : (xs : List A) → Perm (sort_by xs) xs
  unfolding sort_by
  sort_by-Perm xs = Perm.trans (reverse_perm (insertion_sort [] xs)) (insertion_sort-Perm [] xs)

  length-insert_back : (x : A) (ys : List A) → length (insert_back x ys) ≡ suc (length ys)
  unfolding insert_back
  length-insert_back x [] = refl
  length-insert_back x (y ∷ ys) = ground (arith, length-insert_back x ys)

  length-insertion_sort :
      (done xs : List A) → length (insertion_sort done xs) ≡ length done + length xs
  unfolding insertion_sort
  length-insertion_sort done [] = omega arith
  length-insertion_sort done (x ∷ xs) =
      omega (arith, length-insertion_sort (insert_back x done) xs, length-insert_back x done)

  length-reverse_aux : (xs acc : List A) → length (reverse_aux xs acc) ≡ length xs + length acc
  length-reverse_aux [] acc = omega arith
  length-reverse_aux (x ∷ xs) acc = omega (arith, length-reverse_aux xs (x ∷ acc))

  pub length-sort_by : (xs : List A) → length (sort_by xs) ≡ length xs
  unfolding sort_by
  length-sort_by xs =
      omega (arith, length-reverse_aux (insertion_sort [] xs) [], length-insertion_sort [] xs)

-- Sorting keeps what holds of every element.
module _ {ℓ κ} {A : Type ℓ} (less : A → A → Bool) (P : A → Type κ) where
  All-insert_back : (x : A) (ys : List A) → P x → All P ys → All P (insert_back less x ys)
  unfolding insert_back
  All-insert_back x [] p a = (p, tt)
  All-insert_back x (y ∷ ys) p a =
      if-elim (All P) (less x y) (λ h. (a.0, All-insert_back x ys p a.1)) (λ h. (p, a))

  All-insertion_sort :
      (done xs : List A) → All P done → All P xs → All P (insertion_sort less done xs)
  unfolding insertion_sort
  All-insertion_sort done [] d a = d
  All-insertion_sort done (x ∷ xs) d a =
      All-insertion_sort (insert_back less x done) xs (All-insert_back x done a.0 d) a.1

  All-reverse_aux : (xs acc : List A) → All P xs → All P acc → All P (reverse_aux xs acc)
  All-reverse_aux [] acc a b = b
  All-reverse_aux (x ∷ xs) acc a b = All-reverse_aux xs (x ∷ acc) a.1 (a.0, b)

  pub All-sort_by : (xs : List A) → All P xs → All P (sort_by less xs)
  unfolding sort_by
  All-sort_by xs a =
      All-reverse_aux (insertion_sort less [] xs) [] (All-insertion_sort [] xs tt a) tt

-- Where "not less than" is transitive and "less" has no two-cycles, the result is in order: no element
-- is less than one before it.
module _ {ℓ} {A : Type ℓ} (less : A → A → Bool) where
  -- `y` and everything behind it: nothing in front may be less.
  abbrev pub IsOrdered : List A → Type 0
  IsOrdered [] = Unit {0}
  IsOrdered (x ∷ xs) = All (λ y. less y x ≡ false) xs × IsOrdered xs

  abbrev IsReversed : List A → Type 0
  IsReversed [] = Unit {0}
  IsReversed (x ∷ xs) = All (λ y. less x y ≡ false) xs × IsReversed xs

  module _ (asym : (x y : A) → less x y ≡ true → less y x ≡ false)
      (trans : (x y z : A) → less y x ≡ false → less z y ≡ false → less z x ≡ false) where
    insert_back-All :
        (a x : A) (ys : List A)
        → less a x ≡ false
        → All (λ y. less a y ≡ false) ys
        → All (λ y. less a y ≡ false) (insert_back less x ys)
    insert_back-All a x ys h all = All-insert_back less (λ y. less a y ≡ false) x ys h all

    All-below :
        (x y : A) (ys : List A)
        → less x y ≡ false
        → All (λ z. less y z ≡ false) ys
        → All (λ z. less x z ≡ false) ys
    All-below x y [] h a = tt
    All-below x y (z ∷ ys) h a = (trans z y x a.0 h, All-below x y ys h a.1)

    insert_back-IsReversed :
        (x : A) (ys : List A) → IsReversed ys → IsReversed (insert_back less x ys)
    unfolding insert_back
    insert_back-IsReversed x [] r = (tt, tt)
    insert_back-IsReversed x (y ∷ ys) r = elim (Bool-cases (less x y)) [
      | inl e ↦ rw e (insert_back-All y x ys (asym x y e) r.0, insert_back-IsReversed x ys r.1)
      | inr e ↦ rw e ((e, All-below x y ys e r.0), r)
    ]

    insertion_sort-IsReversed :
        (done xs : List A) → IsReversed done → IsReversed (insertion_sort less done xs)
    unfolding insertion_sort
    insertion_sort-IsReversed done [] r = r
    insertion_sort-IsReversed done (x ∷ xs) r =
        insertion_sort-IsReversed (insert_back less x done) xs (insert_back-IsReversed x done r)

    -- What is not yet reversed is not less than ... the part that is.
    abbrev Above : List A → List A → Type 0
    Above [] acc = Unit {0}
    Above (x ∷ xs) acc = All (λ y. less y x ≡ false) acc × Above xs acc

    Above-cons :
        (x : A) (xs acc : List A)
        → All (λ y. less x y ≡ false) xs
        → Above xs acc
        → Above xs (x ∷ acc)
    Above-cons x [] acc a b = tt
    Above-cons x (y ∷ xs) acc a b = ((a.0, b.0), Above-cons x xs acc a.1 b.1)

    reverse_aux-IsOrdered :
        (xs acc : List A)
        → IsReversed xs
        → IsOrdered acc
        → Above xs acc
        → IsOrdered (reverse_aux xs acc)
    reverse_aux-IsOrdered [] acc r o a = o
    reverse_aux-IsOrdered (x ∷ xs) acc r o a =
        reverse_aux-IsOrdered xs (x ∷ acc) r.1 (a.0, o) (Above-cons x xs acc r.0 a.1)

    Above-nil : (xs : List A) → Above xs []
    Above-nil [] = tt
    Above-nil (x ∷ xs) = (tt, Above-nil xs)

    pub sort_by-IsOrdered : (xs : List A) → IsOrdered (sort_by less xs)
    unfolding sort_by
    sort_by-IsOrdered xs =
        reverse_aux-IsOrdered (insertion_sort less [] xs) [] (insertion_sort-IsReversed [] xs tt) tt
          (Above-nil (insertion_sort less [] xs))
