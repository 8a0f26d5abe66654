-- ===== src/Types/Clock.antt =====
-- Go's time.Time and time.Duration, in whole nanoseconds. A Time is counted from 48 hours before the
-- year 0, so that every text that time.Parse accepts has one; Go's zero Time is 1 January of year 1.
use cube.Prelude.{ℕ, ◌==◌, Bool, ltb}

abbrev pub Time : Type 0
Time = ℕ

-- 368 days: the two days before the year 0, and the year 0, which is a leap year.
abbrev pub zero_time : Time
zero_time = 31_795_200_000_000_000

abbrev pub is_zero : Time → Bool
is_zero t = t == zero_time

-- `t.After(u)`
abbrev pub after : Time → Time → Bool
after t u = ltb u t

abbrev pub second : ℕ
second = 1_000_000_000

abbrev pub minute : ℕ
minute = 60_000_000_000

abbrev pub hour : ℕ
hour = 3_600_000_000_000
