-- ===== src/Dispatch/Trail.antt =====
-- The trail stays bounded, holds each event id once, and a new event comes first.
use cube.Prelude.{
  ℕ, ◌+◌, ◌≤◌, ◌<◌, ◌≢◌, List, [], ◌∷◌, arith, length, All, leb, if-elim, Str, str_eq, str_eq_iff,
  is_blank,
}
use cube.Types.{DispatchEvent}
use cube.Dispatch.{max_dispatch_history, copy_events, append_dispatch_event}

abbrev pub IsBounded : List DispatchEvent → Type 0
IsBounded events = length events ≤ max_dispatch_history

copy_events-length :
    (n : ℕ) (id : Str) (events : List DispatchEvent)
    → n < max_dispatch_history
    → n + length (copy_events n id events) ≤ max_dispatch_history
unfolding copy_events
copy_events-length n id [] h = omega arith
copy_events-length n id (e ∷ events) h =
    ground (arith, copy_events-length n id events h, copy_events-length (n + 1) id events)

-- No event of the trail has this id.
abbrev pub Absent : Str → List DispatchEvent → Type 0
Absent id = All (λ e. e.id ≢ id)

-- All ids differ.
abbrev pub Distinct : List DispatchEvent → Type 0
Distinct [] = Unit {0}
Distinct (e ∷ events) = Absent e.id events × Distinct events

copy_events-Absent :
    (n : ℕ) (id : Str) (events : List DispatchEvent) → Absent id (copy_events n id events)
unfolding copy_events
copy_events-Absent n id [] = tt
copy_events-Absent n id (e ∷ events) =
    if-elim (Absent id) (str_eq e.id id) (λ h. copy_events-Absent n id events)
      λ h. (
        ground (arith, str_eq_iff e.id id),
        if-elim (Absent id) (leb max_dispatch_history (n + 1)) (λ k. tt)
            (λ k. copy_events-Absent (n + 1) id events),
      )

copy_events-All {κ} :
    (P : DispatchEvent → Type κ) (n : ℕ) (id : Str) (events : List DispatchEvent)
    → All P events
    → All P (copy_events n id events)
unfolding copy_events
copy_events-All P n id [] a = tt
copy_events-All P n id (e ∷ events) a =
    if-elim (All P) (str_eq e.id id) (λ h. copy_events-All P n id events a.1)
      λ h. (
        a.0,
        if-elim (All P) (leb max_dispatch_history (n + 1)) (λ k. tt)
            (λ k. copy_events-All P (n + 1) id events a.1),
      )

copy_events-Distinct :
    (n : ℕ) (id : Str) (events : List DispatchEvent)
    → Distinct events
    → Distinct (copy_events n id events)
unfolding copy_events
copy_events-Distinct n id [] d = tt
copy_events-Distinct n id (e ∷ events) d =
    if-elim Distinct (str_eq e.id id) (λ h. copy_events-Distinct n id events d.1)
      λ h.
        if-elim (λ r. Distinct (e ∷ r)) (leb max_dispatch_history (n + 1)) (λ k. (tt, tt))
          λ k. (
            copy_events-All (λ x. x.id ≢ e.id) (n + 1) id events d.0,
            copy_events-Distinct (n + 1) id events d.1,
          )

-- A trail of at most `maxDispatchHistory` events stays so when an event is added.
pub append_dispatch_event-IsBounded :
    (events : List DispatchEvent) (event : DispatchEvent)
    → IsBounded events
    → IsBounded (append_dispatch_event events event)
unfolding append_dispatch_event
append_dispatch_event-IsBounded events event b =
    if-elim IsBounded (is_blank event.id) (λ h. b)
      (λ h. omega (arith, copy_events-length 1 event.id events (omega arith)))

-- A trail in which all ids differ stays so when an event is added.
pub append_dispatch_event-Distinct :
    (events : List DispatchEvent) (event : DispatchEvent)
    → Distinct events
    → Distinct (append_dispatch_event events event)
unfolding append_dispatch_event
append_dispatch_event-Distinct events event d =
    if-elim Distinct (is_blank event.id) (λ h. d)
      (λ h. (copy_events-Absent 1 event.id events, copy_events-Distinct 1 event.id events d))
