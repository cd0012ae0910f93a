-- ===== src/Examples/Settings.antt =====
-- The settings page and the timeline.
use mathlib.Core.List.{Perm}
use the_eye.Base.{ℕ, ◌==◌, ◌≢◌, if◌then◌else◌, none, [], String, ◌≡◌, refl, arith, filter, eq_iff}
use the_eye.Base.Dict.{lookup}
use the_eye.Http.{Fetched, outcome, or_text}
use the_eye.Client.{react}
use the_eye.Api.Events.{EventRead}
use the_eye.Api.Account.{request_account_deletion}
use the_eye.Api.Call.{account, asked}
use the_eye.Grouping.Laws.{grown, on_day}
use the_eye.Timeline.{sort_events, timeline}
use the_eye.Timeline.Sorting.{IsChronological, at_time}
use the_eye.Timeline.Laws.{lookup-timeline}
use the_eye.Settings.Danger.{World, initial_zone, begin_deletion, pending, default_reason}
use the_eye.Settings.Danger.Steps.{Reach, here, next, begun, mounted, on_zone}
use the_eye.Settings.Danger.Safety.{IsGuarded, mounted-IsGuarded}
use the_eye.Settings.Danger.Progress.{deletion_reachable}
use the_eye.Examples.Data.{env, home, answered, newer}

abbrev upper : String → String
upper s = if s == "delete" then "DELETE" else s

abbrev fresh_zone : World
fresh_zone = mounted none home

shown : fresh_zone.zone.step ≢ pending
unfolding initial_zone
shown e = ground arith

abbrev accepted : Fetched (Unit {0})
accepted = answered tt

mounted-IsGuarded_example : IsGuarded env [] (on_zone begin_deletion fresh_zone)
mounted-IsGuarded_example =
    mounted-IsGuarded env upper none home (next here (begun fresh_zone shown))

deletion_reachable_example :
    (v : World) × Reach env upper fresh_zone v
    × (v.zone.step ≡ pending)
    × (v.zone.password ≡ "")
    × (v.flights ≡ [])
    × (v.browser
        ≡ react accepted (
            asked env
              (account
                (request_account_deletion "secret" (or_text fresh_zone.zone.reason default_reason)))
              home))
unfolding initial_zone outcome
deletion_reachable_example =
    deletion_reachable env upper fresh_zone "secret" "delete" accepted shown refl refl
      (λ e. ground (arith, (eq_iff "secret" "").1 e)) refl refl

abbrev by_number : EventRead → ℕ
by_number e = e.sequence_num

abbrev one_day : EventRead → String
one_day e = "1 Jan"

lookup-timeline_example :
    (lookup "1 Jan" (timeline by_number one_day newer)
      ≡ grown none (sort_events by_number (filter (on_day one_day "1 Jan") newer)))
    × IsChronological by_number (sort_events by_number (filter (on_day one_day "1 Jan") newer))
    × Perm
        (sort_events by_number (filter (on_day one_day "1 Jan") newer))
        (filter (on_day one_day "1 Jan") newer)
    × ((t : ℕ)
        → filter
            (at_time by_number t)
            (sort_events by_number (filter (on_day one_day "1 Jan") newer))
          ≡ filter (at_time by_number t) (filter (on_day one_day "1 Jan") newer))
lookup-timeline_example = lookup-timeline by_number one_day "1 Jan" newer
