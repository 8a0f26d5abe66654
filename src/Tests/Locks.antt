-- ===== src/Tests/Locks.antt =====
-- An example of the lock: taken in the third round.
use cube.Prelude.{ℕ, zero, suc, ◌+◌, ◌*◌, ◌≡◌, ◌≤◌, some, arith}
use cube.Types.{Time}
use cube.Result.{Result}
use cube.Lock.{Attempt, granted, would_block, poll_lock, pause, Outcome, poll_lock-Outcome}

abbrev third : ℕ → Attempt
third zero = would_block
third (suc zero) = would_block
third (suc (suc i)) = granted

abbrev steady : ℕ → Time
steady i = i * pause

steady_passes : (i : ℕ) → steady i + pause ≤ steady (suc i)
steady_passes i = omega arith

poll_lock-Outcome_example :
    (r : Result (Unit {0})) × (poll_lock third steady 0 0 42 ≡ some r)
    × Outcome third steady 0 0 41 r
poll_lock-Outcome_example = poll_lock-Outcome third steady 0 steady_passes (omega arith)
