-- ===== src/Tests/Limits.antt =====
-- An example of login attempts: two of one key and one of another.
use cube.Prelude.{◌+◌, ◌≤◌, List, [], ◌∷◌, length, select, Str, text, arith}
use cube.Types.{Time, minute}
use cube.Web.Limiter.{recent}
use cube.Web.Window.{run, run-AtMost}
use cube.Tests.Data.{noon}

abbrev attempts : List (Str × Time)
attempts = (text "a", noon) ∷ (text "b", noon) ∷ (text "a", noon + minute) ∷ []

run-AtMost_example : length (select (recent (noon + minute)) (run (text "a") [] [] attempts).1) ≤ 8
run-AtMost_example =
    run-AtMost (text "a") noon (noon + minute) attempts
      (omega arith, (omega arith, (omega arith, omega arith)))
