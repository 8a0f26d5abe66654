-- ===== src/Web/Window.antt =====
-- How many login attempts a key gets through in a minute (internal/web/auth_handlers.go).
use cube.Prelude.{
  ◌≤◌, ◌<◌, ◌≡◌, refl, ap, sym, subst, ◌∙◌, inl, inr, Bool, true, false, ◌&&◌, ltb, List, [], ◌∷◌,
  ◌++◌, arith, if◌then◌else◌, Bool-cases, Str, str_eq, str_eq_iff, str_eq_refl, length, select,
  length-append,
}
use cube.Prelude.Dict.{lookup, lookup-insert}
use cube.Types.{Time}
use cube.Web.Limiter.{LoginLimiter, max_hits, recent, hits_of, allow_hits, allow}

-- The attempts one after the other, with the times at which the key was allowed.
unfoldable pub run : Str → LoginLimiter → List Time → List (Str × Time) → LoginLimiter × List Time
run key l allowed [] = (l, allowed)
run key l allowed ((k, now) ∷ attempts) =
    let r = allow l k now in
    run key r.0 (if r.1 && str_eq k key then allowed ++ (now ∷ []) else allowed) attempts

-- The clock does not go back, from a start to an end.
abbrev pub InOrder : Time → List (Str × Time) → Time → Type 0
InOrder start [] end = start ≤ end
InOrder start ((k, now) ∷ attempts) end = (start ≤ now) × InOrder now attempts end

select_later :
    (now later : Time) (ts : List Time)
    → now ≤ later
    → select (recent later) (select (recent now) ts) ≡ select (recent later) ts
unfolding select
select_later now later [] h = refl
select_later now later (t ∷ ts) h = ground (arith, select_later now later ts h)

length-select_later :
    (now later : Time) (ts : List Time)
    → now ≤ later
    → length (select (recent later) ts) ≤ length (select (recent now) ts)
unfolding select
length-select_later now later [] h = omega arith
length-select_later now later (t ∷ ts) h = ground (arith, length-select_later now later ts h)

select-append :
    (p : Time → Bool) (xs ys : List Time) → select p (xs ++ ys) ≡ select p xs ++ select p ys
unfolding select
select-append p [] ys = refl
select-append p (x ∷ xs) ys = ground (arith, select-append p xs ys)

length-select_one : (p : Time → Bool) (t : Time) → length (select p (t ∷ [])) ≤ 1
unfolding select
length-select_one p t = ground arith

-- From a time on, the hits of a key and the times at which it was allowed are the same within the last
-- minute, and there are at most eight.
record Tracks (hits allowed : List Time) (from : Time) : Type 0 where
  same : (end : Time) → from ≤ end → select (recent end) hits ≡ select (recent end) allowed
  few : (end : Time) → from ≤ end → length (select (recent end) allowed) ≤ max_hits

allow_hits-Tracks :
    (hits allowed : List Time) (start now : Time)
    → start ≤ now
    → Tracks hits allowed start
    → Tracks
        (allow_hits hits now).0
        (if (allow_hits hits now).1 then allowed ++ (now ∷ []) else allowed)
        now
unfolding allow_hits
allow_hits-Tracks hits allowed start now h t =
    elim (Bool-cases (ltb (length (select (recent now) hits)) max_hits)) [
      | inr e ↦ rw e (record {
        same = λ end g. select_later now end hits g ∙ t.same end (omega arith);
        few = λ end g. t.few end (omega arith);
      })
      | inl e ↦ rw e (record {
        same = λ end g.
            select-append (recent end) (select (recent now) hits) (now ∷ [])
            ∙ ap (λ ts. ts ++ select (recent end) (now ∷ []))
                (select_later now end hits g ∙ t.same end (omega arith))
            ∙ sym (select-append (recent end) allowed (now ∷ []));
        few = λ end g.
            let less : length (select (recent now) allowed) < max_hits =
              subst (λ ts. length ts < max_hits) (t.same now h) (ground arith) in
            let fewer = length-select_later now end allowed g in
            let one = length-select_one (recent end) now in
            let both =
              length-append (select (recent end) allowed) (select (recent end) (now ∷ [])) in
            rw (select-append (recent end) allowed (now ∷ [])) (omega arith);
      })
    ]

-- An attempt of another key leaves the hits of the key.
other_hits :
    (key k : Str) (l : LoginLimiter) (now : Time)
    → str_eq k key ≡ false
    → hits_of (lookup key (allow l k now).0) ≡ hits_of (lookup key l)
unfolding allow
other_hits key k l now e =
    rw (lookup-insert k key (allow_hits (hits_of (lookup k l)) now).0 l) (rw e refl)

own_hits :
    (key : Str) (l : LoginLimiter) (now : Time)
    → hits_of (lookup key (allow l key now).0) ≡ (allow_hits (hits_of (lookup key l)) now).0
unfolding allow
own_hits key l now =
    rw (lookup-insert key key (allow_hits (hits_of (lookup key l)) now).0 l)
      (rw (str_eq_refl key) refl)

Tracks-later :
    (hits allowed : List Time) (start now : Time)
    → start ≤ now
    → Tracks hits allowed start
    → Tracks hits allowed now
Tracks-later hits allowed start now h t = record {
  same = λ end g. t.same end (omega arith);
  few = λ end g. t.few end (omega arith);
}

-- The times at which the key was allowed, after one more attempt.
abbrev noted : Str → LoginLimiter → List Time → Str → Time → List Time
noted key l allowed k now =
    if (allow l k now).1 && str_eq k key then allowed ++ (now ∷ []) else allowed

&&_false : (b : Bool) → (b && false) ≡ false
&&_false true = refl
&&_false false = refl

&&_true_right : (b : Bool) → (b && true) ≡ b
&&_true_right true = refl
&&_true_right false = refl

own_noted :
    (key : Str) (l : LoginLimiter) (allowed : List Time) (now : Time)
    → noted key l allowed key now
      ≡ (if (allow_hits (hits_of (lookup key l)) now).1 then allowed ++ (now ∷ []) else allowed)
unfolding allow
own_noted key l allowed now =
    rw (str_eq_refl key) (rw (&&_true_right (allow_hits (hits_of (lookup key l)) now).1) refl)

allow-Tracks :
    (key k : Str) (l : LoginLimiter) (allowed : List Time) (start now : Time)
    → start ≤ now
    → Tracks (hits_of (lookup key l)) allowed start
    → Tracks (hits_of (lookup key (allow l k now).0)) (noted key l allowed k now) now
allow-Tracks key k l allowed start now h t = elim (Bool-cases (str_eq k key)) [
  | inr e ↦ rw e (
      rw (&&_false (allow l k now).1) (
        rw (other_hits key k l now e)
          (Tracks-later (hits_of (lookup key l)) allowed start now h t)))
  | inl e ↦
      let same : key ≡ k = sym ((str_eq_iff k key).0 e) in
      subst (λ j. Tracks (hits_of (lookup key (allow l j now).0)) (noted key l allowed j now) now)
        same
        (rw (own_hits key l now) (
          rw (own_noted key l allowed now)
            (allow_hits-Tracks (hits_of (lookup key l)) allowed start now h t)))
]

run-few :
    (key : Str) (l : LoginLimiter) (allowed : List Time) (start end : Time)
    (attempts : List (Str × Time))
    → InOrder start attempts end
    → Tracks (hits_of (lookup key l)) allowed start
    → length (select (recent end) (run key l allowed attempts).1) ≤ max_hits
unfolding run
run-few key l allowed start end [] o t = t.few end o
run-few key l allowed start end ((k, now) ∷ attempts) o t =
    run-few key (allow l k now).0 (noted key l allowed k now) now end attempts o.1
      (allow-Tracks key k l allowed start now o.0 t)

-- Of any sequence of login attempts, by any keys and in the order of the clock, from a limiter that is
-- new, those of one key that are allowed within the minute up to the end are at most eight.
pub run-AtMost :
    (key : Str) (start end : Time) (attempts : List (Str × Time))
    → InOrder start attempts end
    → length (select (recent end) (run key [] [] attempts).1) ≤ 8
unfolding lookup select
run-AtMost key start end attempts o =
    run-few key [] [] start end attempts o (record { same = λ e g. refl; few = λ e g. omega arith })
