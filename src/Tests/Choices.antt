-- ===== src/Tests/Choices.antt =====
-- Examples of the choice among the accounts, of their scores and of the binding window.
use cube.Prelude.{
  ℕ, ◌-◌, ◌+◌, ◌*◌, ◌%◌, ◌≡◌, ◌≢◌, ◌≤◌, ◌<◌, ◌⊎◌, refl, arith, ◌∷◌, [], text, Str, some, true,
  false, get_elem?, pos, ◌↔◌,
}
use cube.Types.{Window, percent, AccountStatus, AccountOwnerMode}
use cube.Balance.{load_balance_quota_score, clamp_percent, evaluate_load_balance_fields}
use cube.Balance.Score.{load_balance_quota_score-InRange, load_balance_quota_score_mono, InRange}
use cube.Balance.Eligibility.{evaluate_load_balance_fields_iff, MayRun}
use cube.Balance.Select.{Candidate, choose, load_balance_top_group_len, same_prefix}
use cube.Balance.Select.Best.{choose-sort_slice, Chosen}
use cube.Balance.Select.Rotation.{choose-next}
use cube.Balance.{same_load_balance_score}
use cube.Windows.{binding_window, binding, binding_window-NoLower, NoLower}
use cube.Prelude.{drop_while, is_blank, is_empty, is_space, trim_by, trim_right, trim_space}
use cube.Rfc3339.{parse_rfc3339}
use cube.Tests.Data.{window, cache, noon, positions}

abbrev candidate : Str → ℕ → Candidate ℕ
candidate id score = record { account = score; id = id; score = score }

abbrev first : Candidate ℕ
first = candidate (1 ∷ []) (70 * percent)

abbrev second : Candidate ℕ
second = candidate (2 ∷ []) (70 * percent)

choose-sort_slice_example : Chosen (positions 0) (text "a") (first ∷ second ∷ [])
choose-sort_slice_example =
    choose-sort_slice (positions 0) (text "a") (first ∷ second ∷ []) (omega arith) (omega arith)

in_group : 1 < load_balance_top_group_len (first ∷ second ∷ [])
unfolding load_balance_top_group_len same_prefix same_load_balance_score
in_group = omega arith

abbrev one : Str
one = 1 ∷ []

abbrev two : Str
two = 2 ∷ []

differ : two ≢ one
differ = ground arith

choose-next_example :
    (d : Candidate ℕ) × (choose (2 ∷ []) (first ∷ second ∷ []) ≡ some d)
    × (get_elem? (first ∷ second ∷ []) ((1 + 1) % load_balance_top_group_len (first ∷ second ∷ []))
        ≡ some d)
choose-next_example =
    choose-next first (second ∷ []) 1 {c = second} ((differ, tt), (tt, tt))
      (ground arith, (ground arith, tt)) in_group refl

abbrev epoch : ℕ
epoch = 62_167_392_000_000_000_000

epoch_parses : parse_rfc3339 (text "1970-01-01T00:00:00Z") ≡ epoch
unfolding drop_while is_blank is_empty is_space parse_rfc3339 trim_by trim_right trim_space
epoch_parses = refl

before_reset : epoch - 1 < parse_rfc3339 window.resets_at
before_reset = rw epoch_parses (omega arith)

load_balance_quota_score-InRange_example :
    InRange (clamp_percent window.remaining_percent) (load_balance_quota_score window noon)
load_balance_quota_score-InRange_example = load_balance_quota_score-InRange window noon

load_balance_quota_score_mono_example :
    load_balance_quota_score window noon ≤ load_balance_quota_score window (epoch - 1)
load_balance_quota_score_mono_example =
    load_balance_quota_score_mono window noon (epoch - 1) (omega arith) before_reset

abbrev drained : Window
drained = record window { remaining_percent = pos 0 }

seven_binds : binding_window (some window) (some drained) ≡ some drained
unfolding binding_window binding
seven_binds = refl

binding_window-NoLower_example :
    ((some window ≡ some drained) ⊎ (some drained ≡ some drained))
    × NoLower drained (some window)
    × NoLower drained (some drained)
binding_window-NoLower_example =
    binding_window-NoLower (some window) (some drained) {w = drained} seven_binds

evaluate_load_balance_fields_iff_example :
    ((evaluate_load_balance_fields AccountOwnerMode.cloud AccountStatus.ready true false noon cache
        noon).eligible
      ≡ true)
    ↔ MayRun AccountOwnerMode.cloud AccountStatus.ready true false cache noon
evaluate_load_balance_fields_iff_example =
    evaluate_load_balance_fields_iff AccountOwnerMode.cloud AccountStatus.ready true false noon
      cache noon
