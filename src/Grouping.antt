-- ===== src/Grouping.antt =====
-- Events by day: `groupByDay` of the timeline (frontend/src/components/TimelineView.tsx) and of the
-- audit trail (frontend/src/app/audit-trail/page.tsx). The two word the day of an event in different
-- ways, each by the browser's locale, so that each loop has a parameter of its own for it; a `Map` is a dictionary, whose keys keep the order of their first use.
pub mod Laws
use the_eye.Base.{
  Bool, Option, none, some, List, [], ◌∷◌, ◌++◌, String, ◌==◌, or_else, is_some, if◌then◌else◌,
}
use the_eye.Base.Dict.{Dict, lookup, insert}
use the_eye.Api.Events.{EventRead}

abbrev pub Groups : Type 0
Groups = Dict (List EventRead)

-- const bucket = groups.get(day) ?? []; bucket.push(event); groups.set(day, bucket)
unfoldable pub add_event : String → EventRead → Groups → Groups
add_event day e groups = insert day (or_else (lookup day groups) [] ++ e ∷ []) groups

-- days.get(day)!.push(ev), which changes the list in the map
unfoldable pub push_event : String → EventRead → Groups → Groups
push_event day e [] = []
push_event day e ((d, bucket) ∷ days) =
    if d == day then (d, bucket ++ e ∷ []) ∷ days else (d, bucket) ∷ push_event day e days

-- if (!days.has(day)) days.set(day, [])
unfoldable pub with_day : String → Groups → Groups
with_day day days = if is_some (lookup day days) then days else insert day [] days

-- new Date(e.occurred_at).toLocaleDateString()
module _ (local_day : EventRead → String) where
  -- The loop of the timeline, from the groups so far.
  unfoldable pub group_timeline : Groups → List EventRead → Groups
  unfolding add_event
  group_timeline groups [] = groups
  group_timeline groups (e ∷ es) = group_timeline (add_event (local_day e) e groups) es

-- fmtDate(ev.occurred_at)
module _ (fmt_date : EventRead → String) where
  -- The loop of the audit trail.
  unfoldable pub group_trail : Groups → List EventRead → Groups
  unfolding push_event with_day
  group_trail days [] = days
  group_trail days (e ∷ es) =
      group_trail (push_event (fmt_date e) e (with_day (fmt_date e) days)) es
