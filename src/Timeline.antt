-- ===== src/Timeline.antt =====
-- The timeline of events (frontend/src/components/TimelineView.tsx): the events sorted by the time at
-- which they occurred, and grouped by day.
pub mod Sorting
pub mod Laws
use the_eye.Base.{ℕ, Bool, List, [], ◌∷◌, String, leb, if◌then◌else◌}
use the_eye.Api.Events.{EventRead}
use the_eye.Grouping.{Groups, group_timeline}

module _ (time_of : EventRead → ℕ) where
  -- An event goes in front of the first that is not earlier.
  unfoldable pub place : EventRead → List EventRead → List EventRead
  place e [] = e ∷ []
  place e (f ∷ fs) =
      let later = f ∷ place e fs in if leb (time_of e) (time_of f) then e ∷ f ∷ fs else later

  -- [...events].sort((a, b) => time(a) - time(b)), which keeps the order of events of one time
  unfoldable pub sort_events : List EventRead → List EventRead
  unfolding place
  sort_events [] = []
  sort_events (e ∷ es) = place e (sort_events es)

  unfoldable pub timeline : (EventRead → String) → List EventRead → Groups
  unfolding sort_events group_timeline
  timeline day_of events = group_timeline day_of [] (sort_events events)
