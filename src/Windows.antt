-- ===== src/Windows.antt =====
-- internal/manager/quota.go: the quota windows that the load balancer reads.
use cube.Prelude.{
  ◌≡◌, Bool, true, false, ◌||◌, Option, none, some, if◌then◌else◌, find_by, text, str_eq,
  equal_fold, ltb_ℤ, ◌⊎◌, inl, inr, arith, ◌≤ℤ◌,
}
use cube.Types.{Window, QuotaResult}

unfoldable pub quota_five_hour : QuotaResult → Option Window
quota_five_hour result =
    find_by (λ w. str_eq w.key (text "five_hour") || equal_fold w.label (text "5h")) result.quotas

unfoldable pub quota_seven_day : QuotaResult → Option Window
quota_seven_day result =
    find_by (λ w. str_eq w.key (text "seven_day") || equal_fold w.label (text "7d")) result.quotas

-- The window and whether it is the second one, which the source tells by comparing pointers.
unfoldable pub binding : Option Window → Option Window → Option (Window × Bool)
binding none none = none
binding none (some seven) = some (seven, true)
binding (some five) none = some (five, false)
binding (some five) (some seven) =
    if ltb_ℤ seven.remaining_percent five.remaining_percent
    then some (seven, true)
    else some (five, false)

abbrev window_of : Option (Window × Bool) → Option Window
window_of none = none
window_of (some (w, b)) = some w

unfoldable pub binding_window : Option Window → Option Window → Option Window
unfolding binding
binding_window five seven = window_of (binding five seven)

abbrev pub NoLower : Window → Option Window → Type 0
NoLower w none = Unit {0}
NoLower w (some v) = w.remaining_percent ≤ℤ v.remaining_percent

-- The binding window is one of the two, and none of them has less remaining.
pub binding_window-NoLower :
    (five seven : Option Window) {w : Window}
    → binding_window five seven ≡ some w
    → ((five ≡ some w) ⊎ (seven ≡ some w)) × NoLower w five × NoLower w seven
unfolding binding_window
binding_window-NoLower none none h = cc
binding_window-NoLower none (some v) h = (inr (ground arith), tt, ground arith)
binding_window-NoLower (some u) none h = (inl (ground arith), ground arith, tt)
binding_window-NoLower (some u) (some v) h = (ground arith, ground arith, ground arith)
