-- ===== src/AuditTrail/Laws.antt =====
-- What a search of the audit trail sends and shows.
use the_eye.Base.Dict.{lookup}
use the_eye.Base.{[], filter, true, false, Option, List, String, ◌≡◌, ◌==◌, refl}
use the_eye.Browser.{Browser}
use the_eye.Http.{Fetched, value, outcome}
use the_eye.Text.{trim}
use the_eye.Api.Events.{EventRead}
use the_eye.Api.Activity.{get_audit_trail}
use the_eye.Api.Call.{activity, asked}
use the_eye.Api.Call.Laws.{perform_of_value}
use the_eye.AuditTrail.{TrailPage, trail_params, search_trail}
use the_eye.Grouping.{group_trail}
use the_eye.Grouping.Laws.{non_empty, lookup-group_trail}

-- Where the query is not white space alone and the server answers with events, the search is sent
-- once with the query trimmed, the page shows these events and no error, and under each day that it
-- lists stand exactly the events of that day, in the server's order.
search_trail_success :
    (env : Option String) (reply : Fetched (List EventRead)) (page : TrailPage) (b : Browser)
    (fmt_date : EventRead → String) (d : String) {events : List EventRead}
    → (trim page.query == "") ≡ false
    → outcome reply ≡ value events
    → (search_trail env reply page b ≡ (
      record page { events = events; searched = true; loading = false; err = "" },
      asked env (activity (get_audit_trail (trail_params page))) b,
    ))
      × ((trail_params page).subject ≡ trim page.query)
      × (lookup d (group_trail fmt_date [] (search_trail env reply page b).0.events)
          ≡ (let bucket = filter (λ e. fmt_date e == d) events in non_empty bucket))
unfolding search_trail trail_params lookup
search_trail_success env reply page b fmt_date d {events} some_query answered = rw some_query (
    rw (perform_of_value env (activity (get_audit_trail (trail_params page))) reply b answered)
      (refl, refl, lookup-group_trail fmt_date d events))
