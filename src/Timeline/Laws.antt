-- ===== src/Timeline/Laws.antt =====
-- What the timeline shows under each day.
use mathlib.Core.List.{Perm}
use the_eye.Base.{ℕ, none, List, [], String, ◌≡◌, ap, ◌∙◌, filter}
use the_eye.Base.Dict.{lookup}
use the_eye.Api.Events.{EventRead}
use the_eye.Grouping.Laws.{grown, on_day, lookup-group_timeline}
use the_eye.Timeline.{sort_events, timeline}
use the_eye.Timeline.Sorting.{
  IsChronological, sort_events-IsChronological, filter-sort_events, at_time, sort_events_stable,
  sort_events-perm,
}

module _ (time_of : EventRead → ℕ) (day_of : EventRead → String) (d : String)
    (events : List EventRead) where
  abbrev pub events_of_day : List EventRead
  events_of_day = sort_events time_of (filter (on_day day_of d) events)

  -- The timeline shows under a day the events of that day, each as often as it was given and no
  -- others, none before an earlier one, and those of one time in the order in which they were given;
  -- a day without events is not shown.
  pub lookup-timeline :
      (lookup d (timeline time_of day_of events) ≡ grown none events_of_day)
      × IsChronological time_of events_of_day
      × Perm events_of_day (filter (on_day day_of d) events)
      × ((t : ℕ)
          → filter (at_time time_of t) events_of_day
            ≡ filter (at_time time_of t) (filter (on_day day_of d) events))
  unfolding timeline lookup
  lookup-timeline = (
    lookup-group_timeline day_of d [] (sort_events time_of events)
        ∙ ap (grown none) (filter-sort_events time_of (on_day day_of d) events),
    sort_events-IsChronological time_of (filter (on_day day_of d) events),
    sort_events-perm time_of (filter (on_day day_of d) events),
    λ t. sort_events_stable time_of t (filter (on_day day_of d) events),
  )
