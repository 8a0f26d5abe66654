-- ===== src/Balance/Score.antt =====
-- The score of a window: its range, and how it moves while the reset comes nearer.
use cube.Prelude.{ℕ, ◌+◌, ◌*◌, ◌≤◌, ◌<◌, ◌≡◌, arith, ℤ, pos, negsuc}
use cube.Types.{Time, percent, Window}
use cube.Rfc3339.{parse_rfc3339}
use cube.Balance.{
  clamp_percent, load_balance_quota_score, min_five_hour_remaining, near_reset_bonus,
}

clamp_percent-le : (n : ℤ) → clamp_percent n ≤ 100 * percent
unfolding clamp_percent
clamp_percent-le (pos n) = ground arith
clamp_percent-le (negsuc n) = omega arith

abbrev pub InRange : ℕ → ℕ → Type 0
InRange remaining score =
    (remaining ≤ min_five_hour_remaining → score ≡ 0)
    × (min_five_hour_remaining < remaining
        → (remaining ≤ score) × (score ≤ remaining + near_reset_bonus))
    × (score ≤ 125 * percent)

-- A window with 5 percent or less scores 0, and any other at least its remaining percentage and at
-- most 25 percent more; no score is over 125 percent.
pub load_balance_quota_score-InRange :
    (w : Window) (now : Time)
    → InRange (clamp_percent w.remaining_percent) (load_balance_quota_score w now)
unfolding load_balance_quota_score
load_balance_quota_score-InRange w now = (
  λ h. ground arith,
  λ h. (ground arith, ground arith),
  ground (arith, clamp_percent-le w.remaining_percent),
)

-- Until the reset the score of a window never falls.
pub load_balance_quota_score_mono :
    (w : Window) (now later : Time)
    → now ≤ later
    → later < parse_rfc3339 w.resets_at
    → load_balance_quota_score w now ≤ load_balance_quota_score w later
unfolding load_balance_quota_score
load_balance_quota_score_mono w now later h k = ground arith
