-- ===== src/Tests/States.antt =====
-- Examples of ids, of the normalized state and of the audit trail.
use cube.Prelude.{◌∷◌, [], text, All}
use cube.Types.{DispatchEvent}
use cube.Identity.{sanitize_account_id, unique_from_used, or_profile}
use cube.Identity.Unique.{unique_from_used-Unique, Unique}
use cube.Identity.Sanitize.{sanitize_account_id-Trimmed, Trimmed}
use cube.Normalize.{normalize_state, migrate_default_workspace}
use cube.Normalize.Accounts.{normalize_state-IsValid, IsValid}
use cube.Normalize.Migration.{migrate_default_workspace_lem, MigratesPool}
use cube.Dispatch.{append_dispatch_event, dispatch_event_from_account}
use cube.Dispatch.Trail.{append_dispatch_event-Distinct, Distinct}
use cube.Tests.Data.{state, leased, noon}

unique_from_used-Unique_example :
    Unique
      (text "now")
      (or_profile (sanitize_account_id (text "Bob")))
      (text "bob" ∷ [])
      (unique_from_used (text "now") (text "Bob") (text "bob" ∷ []))
unique_from_used-Unique_example =
    unique_from_used-Unique (text "now") (text "Bob") (text "bob" ∷ [])

sanitize_account_id-Trimmed_example : Trimmed (sanitize_account_id (text " Bob@x "))
sanitize_account_id-Trimmed_example = sanitize_account_id-Trimmed (text " Bob@x ")

normalize_state-IsValid_example : All IsValid (normalize_state noon [] state).accounts
normalize_state-IsValid_example = normalize_state-IsValid noon [] state

migrate_default_workspace_lem_example :
    MigratesPool noon state (migrate_default_workspace noon state)
migrate_default_workspace_lem_example = migrate_default_workspace_lem noon state

abbrev event : DispatchEvent
event = dispatch_event_from_account state leased (text "claimed") noon

append_dispatch_event-Distinct_example : Distinct (append_dispatch_event (event ∷ []) event)
append_dispatch_event-Distinct_example = append_dispatch_event-Distinct (event ∷ []) event (tt, tt)
