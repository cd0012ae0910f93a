-- ===== src/Examples/Composition.antt =====
-- Both portals in one browser, the figures and the forms of the pages, and the proxy.
use the_eye.Base.{
  arith, length, ◌≤◌, true, false, none, some, List, [], ◌∷◌, String, ◌≡◌, ◌==◌, refl, filter,
  length, All, if◌then◌else◌,
}
use the_eye.Base.Dict.{lookup}
use the_eye.Http.{Fetched, Failure, outcome, api_error, any_message}
use the_eye.Session.{session_json}
use the_eye.Login.{LoginForm}
use the_eye.Staff.Session.{staff_json}
use the_eye.Staff.Login.{StaffLoginForm}
use the_eye.Theme.{light}
use the_eye.Portals.{Event, log_in, choose_theme, staff_log_in, log_out}
use the_eye.Doubles.Whole.{whole}
use the_eye.Charts.Ticks.{count_below, show_tick, show_tick_few}
use the_eye.Charts.Laws.{Within}
use the_eye.Analytics.{AnalyticsData}
use the_eye.Analytics.View.{
  category_bars, severity_bars, outcome_bars, top_types, day_bars, hour_mixes,
}
use the_eye.Analytics.Laws.{bars-Within}
use the_eye.Text.{text_length}
use the_eye.Text.Words.{fmt_label}
use the_eye.Text.Words.Laws.{worded, fmt_label-fmt_label}
use the_eye.Overview.{OverviewPage, failures}
use the_eye.Overview.Laws.{answers_of, loaded, load_overview_failed}
use the_eye.Proxy.{proxy}
use the_eye.Proxy.Policy.{read_directives, required, read_policy-proxy}
use the_eye.Staff.AuditLog.Delay.{
  Move, fire, refresh, answer, moves, opened, IsShown, moves-IsShown,
}
use the_eye.Staff.AuditLog.Delay
use the_eye.Nav.{sidebar_items, is_active_link, usb_item}
use the_eye.Nav.Links.{sidebar_items-active}
use the_eye.Examples.Data.{env, home, alice, staff_member, answered, refused, older}

abbrev login_form : LoginForm
login_form = record {
  email = "alice@example.org";
  password = "correct horse";
  show_password = false;
  error = none;
  loading = false;
}

abbrev staff_form : StaffLoginForm
staff_form = record {
  username = "sam";
  password = "correct horse";
  show_password = false;
  error = none;
  loading = false;
}

-- Both sign in, a theme is chosen in between, and the user of the dashboard signs out.
abbrev day : List Event
day =
    log_in login_form (answered (session_json alice))
    ∷ choose_theme light
    ∷ staff_log_in staff_form (answered (staff_json staff_member))
    ∷ log_out refused
    ∷ []

show_tick_few_example : count_below 30 (show_tick 30) ≤ 15
show_tick_few_example = show_tick_few 30

abbrev figures : AnalyticsData
figures = record {
  total_events = 7;
  events_by_day =
      record { date = "2025-01-01"; count = 7 } ∷ record { date = "2025-01-02"; count = 0 } ∷ [];
  events_by_category = record { category = "network"; count = 7 } ∷ [];
  events_by_severity =
      record { severity = "critical"; count = 2 } ∷ record { severity = "info"; count = 5 } ∷ [];
  top_event_types = record { event_type = "auth.login"; count = 7 } ∷ [];
  outcome_breakdown = [];
  activity_by_hour = record { hour = 9; count = 7 } ∷ [];
}

bars-Within_example :
    All (Within whole 0 100) (category_bars whole figures)
    × All (Within whole 0 100) (severity_bars whole figures)
    × All (Within whole 0 100) (outcome_bars whole figures)
    × All (λ t. Within whole 0 100 t.pct) (top_types whole figures)
    × All (Within whole 2 100) (day_bars whole figures)
    × ((shares : List whole.Double) × (hour_mixes whole figures ≡ some shares)
        × (length shares ≡ 24)
        × All (Within whole 0 88) shares)
bars-Within_example = bars-Within whole figures (omega arith, tt)

fmt_label-fmt_label_example :
    (worded false (fmt_label "data_access") ≡ true)
    × (text_length (fmt_label "data_access") ≡ text_length "data_access")
    × (fmt_label (fmt_label "data_access") ≡ fmt_label "data_access")
fmt_label-fmt_label_example = fmt_label-fmt_label "data_access"

abbrev overview_page : OverviewPage
overview_page = record {
  stats = none;
  recent = none;
  alerts = [];
  risk_scores = [];
  error = none;
  loading = false;
}

abbrev first_to_fail : Failure → List Failure → Failure
first_to_fail f fs = f

load_overview_failed_example :
    (f : Failure) × (fs : List Failure) × (failures
        (answers_of refused (answered older) (answered []) refused)
      ≡ f ∷ fs)
    × (loaded env first_to_fail "filter" "slice" refused
          (answered older)
          (answered [])
          refused
          overview_page
          home
        ≡ record overview_page {
          error = some (any_message "Failed to load overview" (first_to_fail f fs));
          loading = false;
        })
unfolding the_eye.Http.outcome
load_overview_failed_example =
    load_overview_failed env first_to_fail "filter" "slice" refused (answered older) (answered [])
      refused overview_page home refl

read_policy-proxy_example :
    let f = proxy env "bm9uY2U=" (("x-nonce", "forged") ∷ ("host", "app.example.org") ∷ []) in
    (p : String) × (lookup "content-security-policy" f.response_headers ≡ some p)
    × (read_directives p ≡ required env "bm9uY2U=")
    × ((name : String)
        → lookup name f.request_headers ≡ (
            if "x-nonce" == name
            then some "bm9uY2U="
            else lookup name (("x-nonce", "forged") ∷ ("host", "app.example.org") ∷ [])))
read_policy-proxy_example =
    read_policy-proxy env "bm9uY2U=" (("x-nonce", "forged") ∷ ("host", "app.example.org") ∷ []) refl
      refl

-- The actor is typed before the first load, whose answer comes, and the log is refreshed.
abbrev typing : List Move
typing =
    the_eye.Staff.AuditLog.Delay.set_filters ("", "", "sam")
    ∷ fire
    ∷ refresh
    ∷ answer 0 true
    ∷ answer 0 true
    ∷ []

moves-IsShown_example : IsShown (moves typing opened)
unfolding the_eye.Staff.AuditLog.Delay.move
moves-IsShown_example = moves-IsShown typing refl refl refl

sidebar_items-active_example :
    (length (filter (is_active_link "/admin/users/u1") (sidebar_items (some (session_json alice))))
      ≤ 1)
    × (is_active_link "/admin/users/u1" usb_item ≡ false)
sidebar_items-active_example =
    sidebar_items-active (some (session_json alice)) "/admin/users/u1" refl
