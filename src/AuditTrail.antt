-- ===== src/AuditTrail.antt =====
-- The page of the audit trail (frontend/src/app/audit-trail/page.tsx): the search for a person, a
-- file or a machine, and the flag that an event is given. Unlike other pages it has no gate.
pub mod Laws
pub mod Narrative
use the_eye.Base.{Bool, true, false, Option, none, some, List, String, ◌==◌, if◌then◌else◌}
use the_eye.Base.Dict.{Dict, insert}
use the_eye.Text.{trim}
use the_eye.Browser.{Browser}
use the_eye.Http.{Fetched, Outcome, value, no_content, raised, Failure, api_error, other_error}
use the_eye.Api.Events.{EventRead, flag_event}
use the_eye.Api.Activity.{AuditTrailParams, get_audit_trail}
use the_eye.Api.Call.{activity, flag, perform}

pub record TrailPage : Type 0 where
  pub query : String
  pub machine : String
  pub from : String
  pub to : String
  pub events : List EventRead
  pub loading : Bool
  pub searched : Bool
  pub err : String
  pub flag_map : Dict String

-- s || undefined
abbrev given : String → Option String
given s = if s == "" then none else some s

pub trail_params : TrailPage → AuditTrailParams
unfolding trim
trail_params page = record {
  subject = trim page.query;
  machine = given page.machine;
  from = given page.from;
  to = given page.to;
  limit = some 500;
}

-- e.message: every failure is an `Error`.
abbrev pub message : Failure → String
message (api_error status m) = m
message (other_error m) = m

-- The answer to a search; one with no content is left aside.
found : Outcome (List EventRead) → TrailPage → TrailPage
found (value events) page = record page { events = events; searched = true; loading = false }
found no_content page = record page { searched = true; loading = false }
found (raised f) page = record page { err = message f; loading = false }

pub search_trail :
    Option String → Fetched (List EventRead) → TrailPage → Browser → TrailPage × Browser
unfolding found trail_params
search_trail env reply page b =
    let (result, after) = perform env (activity (get_audit_trail (trail_params page))) reply b in
    if trim page.query == ""
    then (page, b)
    else (found result (record page { loading = true; err = "" }), after)

-- The pill of one event; a failure is not handled, and only `finally` is seen of it.
pub record FlagPill : Type 0 where
  pub is_open : Bool
  pub note : String
  pub saving : Bool
  pub done : Option String

flagged : String → String → Outcome (Unit {0}) → FlagPill → TrailPage → FlagPill × TrailPage
flagged id type (raised f) pill page = (record pill { saving = false; is_open = false }, page)
flagged id type _ pill page = (
  record pill { saving = false; is_open = false; done = some type },
  record page { flag_map = insert id type page.flag_map },
)

pub submit_flag :
    Option String
    → String
    → String
    → Fetched (Unit {0})
    → FlagPill
    → TrailPage
    → Browser
    → FlagPill × TrailPage × Browser
unfolding flagged
submit_flag env id type reply pill page b =
    let (result, after) = perform env (flag (flag_event id type (given pill.note))) reply b in
    let (pill', page') = flagged id type result (record pill { saving = true }) page in
    (pill', page', after)
