-- ===== src/Prelude/Trim.antt =====
-- Laws of trimming.
use mathlib.Core.List.{reverse-append, reverse-cons, reverse-reverse}
use mathlib.Core.List.{reverse, reverse_aux}
use cube.Prelude.{
  ℕ, ◌+◌, ◌≤◌, ◌≡◌, refl, ap, ◌∙◌, ◌⊎◌, inl, inr, Bool, false, [], ◌∷◌, ◌++◌, arith, length, All,
  Bool-cases, Str, drop_while, trim_right, trim_by, trim_space, is_space,
}

pub drop_while-append_stop :
    (p : ℕ → Bool) (s : Str) (h : ℕ)
    → p h ≡ false
    → drop_while p (s ++ h ∷ []) ≡ drop_while p s ++ h ∷ []
unfolding drop_while
drop_while-append_stop p [] h e = ground arith
drop_while-append_stop p (c ∷ s) h e = ground (arith, drop_while-append_stop p s h e)

-- What is left is empty, or begins with a character that fails the test.
pub drop_while-cases :
    (p : ℕ → Bool) (s : Str)
    → (drop_while p s ≡ []) ⊎ ((h : ℕ) × (t : Str) × (drop_while p s ≡ h ∷ t) × (p h ≡ false))
unfolding drop_while
drop_while-cases p [] = inl refl
drop_while-cases p (c ∷ s) = elim (Bool-cases (p c)) [
  | inl e ↦ ground (arith, drop_while-cases p s)
  | inr e ↦ inr (c, s, ground arith, e)
]

trim_right-nil : (p : ℕ → Bool) → trim_right p [] ≡ []
unfolding trim_right
trim_right-nil p = refl

pub trim_right-cons :
    (p : ℕ → Bool) (h : ℕ) (t : Str) → p h ≡ false → trim_right p (h ∷ t) ≡ h ∷ trim_right p t
unfolding trim_right
trim_right-cons p h t e =
    ap (λ u. reverse (drop_while p u)) (reverse-cons h t)
    ∙ ap reverse (drop_while-append_stop p (reverse t) h e)
    ∙ reverse-append (drop_while p (reverse t)) (h ∷ [])

pub trim_by-cases :
    (p : ℕ → Bool) (s : Str)
    → (trim_by p s ≡ [])
      ⊎ ((h : ℕ) × (t : Str) × (trim_by p s ≡ h ∷ trim_right p t) × (p h ≡ false))
unfolding trim_by
trim_by-cases p s = elim (drop_while-cases p s) [
  | inl e ↦ inl (rw e (trim_right-nil p))
  | inr (h, t, e, f) ↦ inr (h, t, rw e (trim_right-cons p h t f), f)
]

drop_while_idem : (p : ℕ → Bool) (s : Str) → drop_while p (drop_while p s) ≡ drop_while p s
unfolding drop_while
drop_while_idem p [] = refl
drop_while_idem p (c ∷ s) = ground (arith, drop_while_idem p s)

trim_right_idem : (p : ℕ → Bool) (s : Str) → trim_right p (trim_right p s) ≡ trim_right p s
unfolding trim_right
trim_right_idem p s =
    ap (λ u. reverse (drop_while p u)) (reverse-reverse (drop_while p (reverse s)))
    ∙ ap reverse (drop_while_idem p (reverse s))

-- Trimming twice is trimming once.
pub trim_by_idem : (p : ℕ → Bool) (s : Str) → trim_by p (trim_by p s) ≡ trim_by p s
unfolding trim_by
trim_by_idem p s = elim (drop_while-cases p s) [
  | inl e ↦ rw e (rw (trim_right-nil p) (trim_right-nil p))
  | inr (h, t, e, f) ↦
      let keep : drop_while p (trim_right p (drop_while p s)) ≡ trim_right p (drop_while p s) =
        rw e (rw (trim_right-cons p h t f) (rw f)) in
      rw keep (trim_right_idem p (drop_while p s))
]

pub trim_space_idem : (s : Str) → trim_space (trim_space s) ≡ trim_space s
unfolding trim_space
trim_space_idem s = trim_by_idem is_space s

-- Trimming only takes away.
drop_while-All {κ} : (P : ℕ → Type κ) (p : ℕ → Bool) (s : Str) → All P s → All P (drop_while p s)
unfolding drop_while
drop_while-All P p [] a = a
drop_while-All P p (c ∷ s) a = elim (Bool-cases (p c)) [
  | inl e ↦ rw e (drop_while-All P p s a.1)
  | inr e ↦ rw e a
]

reverse_aux-All {κ} : (P : ℕ → Type κ) (s t : Str) → All P s → All P t → All P (reverse_aux s t)
reverse_aux-All P [] t a b = b
reverse_aux-All P (c ∷ s) t a b = reverse_aux-All P s (c ∷ t) a.1 (a.0, b)

pub trim_by-All {κ} : (P : ℕ → Type κ) (p : ℕ → Bool) (s : Str) → All P s → All P (trim_by p s)
unfolding trim_by trim_right
trim_by-All P p s a =
    reverse_aux-All P (drop_while p (reverse (drop_while p s))) []
      (drop_while-All P p _ (reverse_aux-All P (drop_while p s) [] (drop_while-All P p s a) tt)) tt

drop_while-length : (p : ℕ → Bool) (s : Str) → length (drop_while p s) ≤ length s
unfolding drop_while
drop_while-length p [] = omega arith
drop_while-length p (c ∷ s) = ground (arith, drop_while-length p s)

reverse_aux-length : (s t : Str) → length (reverse_aux s t) ≡ length s + length t
reverse_aux-length [] t = omega arith
reverse_aux-length (c ∷ s) t = omega (arith, reverse_aux-length s (c ∷ t))

pub trim_by-length : (p : ℕ → Bool) (s : Str) → length (trim_by p s) ≤ length s
unfolding trim_by trim_right
trim_by-length p s = omega (
  arith,
  drop_while-length p s,
  reverse_aux-length (drop_while p s) [],
  drop_while-length p (reverse (drop_while p s)),
  reverse_aux-length (drop_while p (reverse (drop_while p s))) [],
)

-- Nothing to trim.
drop_while-none : (p : ℕ → Bool) (s : Str) → All (λ c. p c ≡ false) s → drop_while p s ≡ s
unfolding drop_while
drop_while-none p [] a = refl
drop_while-none p (c ∷ s) a = rw a.0

pub trim_by-none : (p : ℕ → Bool) (s : Str) → All (λ c. p c ≡ false) s → trim_by p s ≡ s
unfolding trim_by trim_right
trim_by-none p s a =
    ap (λ u. reverse (drop_while p (reverse u))) (drop_while-none p s a)
    ∙ ap reverse (drop_while-none p (reverse s) (reverse_aux-All (λ c. p c ≡ false) s [] a tt))
    ∙ reverse-reverse s
