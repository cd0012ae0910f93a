-- ===== src/EventParts.antt =====
-- The parts of the dashboard that show one event: its page and its panel
-- (frontend/src/app/events/[id]/page.tsx, frontend/src/components/EventDetailPanel.tsx), the filters
-- of the events (frontend/src/components/EventFilters.tsx), and the access log
-- (frontend/src/app/access-log/page.tsx).
pub mod Laws
use the_eye.Base.{
  Bool, true, false, ◌&&◌, Option, none, some, List, [], ◌∷◌, String, ◌⧺◌, ◌==◌, or_else,
  if◌then◌else◌,
}
use the_eye.Json.{Json, str, property, as_text}
use the_eye.Browser.{Browser}
use the_eye.Http.{Fetched, any_message}
use the_eye.Api.Events.{EventRead, EventSearchParams, get_event, search_events}
use the_eye.Api.Oversight.{get_whistleblower_report}
use the_eye.Api.Call.{event, oversight}
use the_eye.Page.{load}
use the_eye.Views.{View, WhistleblowerReport, load_view}

pub record EventPage : Type 0 where
  pub event_shown : Option EventRead
  pub error : Option String

pub record ReportText : Type 0 where
  pub text : Option String
  pub error : Option String

-- What WhistleblowerReportText draws.
pub data Drawn : Type 0 where
  message waiting report : String → Drawn

unfoldable pub draw_report : ReportText → Drawn
draw_report r = elim r.error [
  | some m ↦ message m
  | none ↦ elim r.text [ none ↦ waiting "Loading…" | some t ↦ report t ]
]

-- typeof event.metadata?.report_id === "string"
unfoldable pub report_id : EventRead → Option String
unfolding property
report_id e =
    if e.event_type == "whistleblower.report_submitted"
    then as_text (property "report_id" e.metadata)
    else none

-- event.target_type ? `${event.target_type}:${event.target_id}` : null
abbrev pub target_id_text : Option String → String
target_id_text i = or_else i "null"

unfoldable pub target_text : EventRead → Option String
target_text e = elim e.target_type [
  | none ↦ none
  | some t ↦ if t == "" then none else some (t ⧺ ":" ⧺ target_id_text e.target_id)
]

module _ (env : Option String) where
  unfoldable pub load_event : String → Fetched EventRead → EventPage → Browser → EventPage × Browser
  load_event id =
      load env (event (get_event id)) (λ e page. record page { event_shown = some e })
        λ f page. record page { error = some (any_message "Failed to load event" f) }

  unfoldable pub load_report :
      String → Fetched WhistleblowerReport → ReportText → Browser → ReportText × Browser
  load_report id =
      load env (oversight (get_whistleblower_report id))
        (λ r part. record part { text = some r.report_text })
        λ f part. record part {
          error = some "Unable to load report text (insufficient permissions or report not found).";
        }

  -- The access log shows the last hundred sign-ins to the dashboard.
  unfoldable pub load_access_log :
      Fetched (List EventRead) → View (List EventRead) → Browser → View (List EventRead) × Browser
  unfolding load_view
  load_access_log =
      load_view env
        (event (
          search_events (record {
            actor_id = none;
            event_type = some "auth.dashboard_login";
            event_category = none;
            outcome = none;
            q = none;
            limit = some 100;
            offset = none;
          })))
        "Failed to load access log"

-- The four filters: each is written over the search parameters, and the page starts at the first
-- event again.
pub data FilterField : Type 0 where
  actor_field type_field category_field outcome_field : FilterField

unfoldable pub on_change : FilterField → String → EventSearchParams → EventSearchParams
on_change actor_field s v = record v { actor_id = some s }
on_change type_field s v = record v { event_type = some s }
on_change category_field s v = record v { event_category = some s }
on_change outcome_field s v = record v { outcome = some s }

unfoldable pub filter_value : FilterField → EventSearchParams → String
filter_value actor_field v = or_else v.actor_id ""
filter_value type_field v = or_else v.event_type ""
filter_value category_field v = or_else v.event_category ""
filter_value outcome_field v = or_else v.outcome ""

unfoldable pub set_filters : FilterField → String → EventSearchParams → EventSearchParams
unfolding on_change
set_filters f s v = record (on_change f s v) { offset = some 0 }

-- Where a sign-in came from: the city and the country that are there, or a dash.
abbrev given : Option String → List String → List String
given none rest = rest
given (some s) rest = if s == "" then rest else s ∷ rest

abbrev joined : List String → String
joined [] = "—"
joined (s ∷ []) = s
joined (s ∷ t ∷ _) = s ⧺ ", " ⧺ t

unfoldable pub geo_label : EventRead → String
unfolding property
geo_label e = elim (property "geo" e.metadata) [
  | none ↦ "—"
  | some geo ↦
      joined (given (as_text (property "city" geo)) (given (as_text (property "country" geo)) []))
]
