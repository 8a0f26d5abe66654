-- ===== src/Lock.antt =====
-- `acquireLock` of internal/manager/fsutil.go in file mode: the loop that polls the lock file.
use cube.Prelude.{
  ℕ, zero, suc, ◌+◌, ◌-◌, ◌*◌, ◌≤◌, ◌<◌, ◌≡◌, refl, subst, ◌==◌, ◌⊎◌, inl, inr, Option, none, some,
  arith, ltb, if◌then◌else◌, Bool-cases, text,
}
use cube.Types.{Time, second}
use cube.Result.{Result, ok, err, failed, io}

-- What flock without waiting says.
pub data Attempt : Type 0 where
  granted : Attempt
  would_block : Attempt
  broken : Attempt

abbrev pub timed_out : Result (Unit {0})
timed_out = err (failed (text "timeout acquiring lock for round-robin selector"))

abbrev pub patience : ℕ
patience = 2 * second

abbrev pub pause : ℕ
pause = 50_000_000

-- The loop from round `i` on: `attempt` and `clock` say for each round what flock answers and what the
-- clock then reads. None when the fuel has run out.
unfoldable pub poll_lock : (ℕ → Attempt) → (ℕ → Time) → Time → ℕ → ℕ → Option (Result (Unit {0}))
poll_lock attempt clock start i zero = none
poll_lock attempt clock start i (suc fuel) =
    let rest = poll_lock attempt clock start (suc i) fuel in
    elim (attempt i) [
      | granted ↦ some (ok tt)
      | broken ↦ some (err io)
      | would_block ↦ if ltb patience (clock i - start) then some timed_out else rest
    ]

-- How the loop ends in a round, whose attempt is the first that does not go on.
pub data Ends (attempt : ℕ → Attempt) (clock : ℕ → Time) (start : Time) (i : ℕ)
    : Result (Unit {0}) → Type 0 where
  locked : attempt i ≡ granted → Ends attempt clock start i (ok tt)
  gave_up : attempt i ≡ broken → Ends attempt clock start i (err io)
  ran_out :
      attempt i ≡ would_block → patience < clock i - start → Ends attempt clock start i timed_out

-- The rounds before the last have found the lock taken, and time left.
pub record Outcome (attempt : ℕ → Attempt) (clock : ℕ → Time) (start : Time) (from limit : ℕ)
    (r : Result (Unit {0})) : Type 0 where
  pub last : ℕ
  pub in_time : (from ≤ last) × (last ≤ limit)
  pub ends : Ends attempt clock start last r
  pub earlier :
      (j : ℕ) → from ≤ j → j < last → (attempt j ≡ would_block) × (clock j - start ≤ patience)

attempt-cases : (a : Attempt) → (a ≡ granted) ⊎ (a ≡ broken) ⊎ (a ≡ would_block)
attempt-cases granted = inl refl
attempt-cases broken = inr (inl refl)
attempt-cases would_block = inr (inr refl)

module _ (attempt : ℕ → Attempt) (clock : ℕ → Time) (start : Time)
    (passes : (i : ℕ) → clock i + pause ≤ clock (suc i)) (begins : start ≤ clock 0) where
  elapsed : (i : ℕ) → start + i * pause ≤ clock i
  elapsed zero = omega (arith, begins)
  elapsed (suc i) = omega (arith, elapsed i, passes i)

  here :
      (i limit : ℕ) {r : Result (Unit {0})}
      → i ≤ limit
      → Ends attempt clock start i r
      → Outcome attempt clock start i limit r
  here i limit le e = record {
    last = i;
    in_time = (omega arith, le);
    ends = e;
    earlier = λ j p q. absurd (omega arith);
  }

  poll_from :
      (i fuel : ℕ)
      → i + fuel ≡ 42
      → i ≤ 41
      → (r : Result (Unit {0})) × (poll_lock attempt clock start i fuel ≡ some r)
        × Outcome attempt clock start i 41 r
  unfolding poll_lock
  poll_from i zero h le = absurd (omega arith)
  poll_from i (suc fuel) h le = elim (attempt-cases (attempt i)) [
    | inl e ↦ (ok tt, rw (e, poll_lock) refl, here i 41 le (locked e))
    | inr (inl e) ↦ (err io, rw (e, poll_lock) refl, here i 41 le (gave_up e))
    | inr (inr e) ↦ elim (Bool-cases (ltb patience (clock i - start))) [
      | inl t ↦ (timed_out, rw (e, poll_lock) (rw t refl), here i 41 le (ran_out e (ground arith)))
      | inr t ↦
          let more : suc i ≤ 41 = ground (arith, elapsed i) in
          let (r, p, o) = poll_from (suc i) fuel (omega arith) more in
          (
            r,
            rw (e, poll_lock) (rw t p),
            record {
              last = o.last;
              in_time = (omega (arith, o.in_time.0), o.in_time.1);
              ends = o.ends;
              earlier = λ j p q. elim (Bool-cases (j == i)) [
                | inl s ↦
                    let same : i ≡ j = ground arith in
                    subst (λ k. (attempt k ≡ would_block) × (clock k - start ≤ patience)) same
                      (e, ground arith)
                | inr s ↦ o.earlier j (ground arith) q
              ];
            },
          )
    ]
  ]

-- If the clock does not start late and each round takes the 50 milliseconds of its pause, the loop ends
-- within 42 rounds, in the first round in which flock does not say that it would block, or two seconds
-- have passed; and with the lock, flock's error or the timeout as that round has it.
pub poll_lock-Outcome :
    (attempt : ℕ → Attempt) (clock : ℕ → Time) (start : Time)
    → ((i : ℕ) → clock i + pause ≤ clock (suc i))
    → start ≤ clock 0
    → (r : Result (Unit {0})) × (poll_lock attempt clock start 0 42 ≡ some r)
      × Outcome attempt clock start 0 41 r
poll_lock-Outcome attempt clock start passes begins =
    poll_from attempt clock start passes begins 0 42 refl (omega arith)
