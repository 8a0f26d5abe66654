-- ===== src/Tests/Quotas.antt =====
-- Examples of the recording of quota results.
use cube.Prelude.{text}
use cube.World.{World}
use cube.Result.{Result}
use cube.Tests.Data.{world, result, given, noon}
use cube.Quota.{record_leased_quota, record_quota_report}

abbrev reported_run : Result (Unit {0}) × World
reported_run = record_quota_report (text "b") result (text "c") world

abbrev reported_value : (Unit {0})
reported_value = given tt reported_run.0

abbrev under_lease_run : Result (Unit {0}) × World
under_lease_run = record_leased_quota (text "a") (text "l") (text "c") result noon world

abbrev under_lease_value : (Unit {0})
under_lease_value = given tt under_lease_run.0
