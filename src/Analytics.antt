-- ===== src/Analytics.antt =====
-- The analytics page of the dashboard (frontend/src/app/analytics/page.tsx): its load, its figures
-- and the bars of its charts. Numbers are written by the browser (toLocaleString, toFixed), which
-- is a parameter here, and so is the name of an error that is not an ApiError.
pub mod View
pub mod Laws
use the_eye.Base.{
  ℕ, ◌+◌, Bool, true, false, ◌&&◌, ◌||◌, not, Option, none, some, List, [], ◌∷◌, String, ◌⧺◌, ◌==◌,
  map, filter, take, ltb, leb, eqb, or_else, is_some, if◌then◌else◌,
}
use the_eye.Browser.{Browser}
use the_eye.Http.{Fetched, Failure, api_error, other_error}
use the_eye.Api.Monitor.{get_analytics}
use the_eye.Api.Call.{platform}
use the_eye.Page.{Setting, attempt_set}
use the_eye.Activity.{Row, zeros, set_at}
use the_eye.Doubles.{Doubles}
use the_eye.Charts.{max_or_one, sum_of, at_least_one, percent, share, day_bar, hour_mix}

pub record DayTotal : Type 0 where
  pub date : String
  pub count : ℕ

pub record CategoryTotal : Type 0 where
  pub category : String
  pub count : ℕ

pub record SeverityTotal : Type 0 where
  pub severity : String
  pub count : ℕ

pub record TypeTotal : Type 0 where
  pub event_type : String
  pub count : ℕ

pub record OutcomeTotal : Type 0 where
  pub outcome : String
  pub count : ℕ

pub record HourTotal : Type 0 where
  pub hour : ℕ
  pub count : ℕ

pub record AnalyticsData : Type 0 where
  pub total_events : ℕ
  pub events_by_day : List DayTotal
  pub events_by_category : List CategoryTotal
  pub events_by_severity : List SeverityTotal
  pub top_event_types : List TypeTotal
  pub outcome_breakdown : List OutcomeTotal
  pub activity_by_hour : List HourTotal

pub record AnalyticsPage : Type 0 where
  pub shown : Option AnalyticsData
  pub error : Option String
  pub loading : Bool

-- The text of an error: its status or its name, and its message.
unfoldable pub error_text : (String → String) → (ℕ → String) → Failure → String
error_text name_of digits (api_error status m) = digits status ⧺ ": " ⧺ m
error_text name_of digits (other_error m) = name_of m ⧺ ": " ⧺ m

unfoldable pub load_page :
    (String → String)
    → (ℕ → String)
    → Option String
    → Fetched AnalyticsData
    → AnalyticsPage
    → Browser
    → AnalyticsPage × Browser
unfolding error_text
load_page name_of digits env reply page b =
    attempt_set env (platform get_analytics)
      (record {
        put = λ a p. record p { shown = a };
        failed = λ f p. record p { error = some (error_text name_of digits f) };
        finally = λ p. record p { loading = false };
      })
      reply (record page { loading = true }) b

-- The first entry of critical events, and the failures with the denials.
unfoldable pub critical_of : List SeverityTotal → ℕ
critical_of [] = 0
critical_of (r ∷ rs) =
    let rest = critical_of rs in if r.severity == "critical" then r.count else rest

unfoldable pub failures_of : List OutcomeTotal → ℕ
unfolding sum_of
failures_of rs =
    sum_of (map (λ r. r.count) (filter (λ r. r.outcome == "failure" || r.outcome == "denied") rs))

-- b.count > a.count ? b : a, from the entry given
unfoldable pub peak_day : DayTotal → List DayTotal → DayTotal
peak_day a [] = a
peak_day a (d ∷ ds) = peak_day (if ltb a.count d.count then d else a) ds

unfoldable pub peak_hour : HourTotal → List HourTotal → HourTotal
peak_hour a [] = a
peak_hour a (h ∷ hs) = peak_hour (if ltb a.count h.count then h else a) hs

abbrev pub no_day : DayTotal
no_day = record { date = "—"; count = 0 }

abbrev pub no_hour : HourTotal
no_hour = record { hour = 0; count = 0 }

-- The array of the hours; a later entry for an hour replaces an earlier one.
unfoldable pub fill_hours : Row → List HourTotal → Row
unfolding set_at
fill_hours filled [] = filled
fill_hours filled (h ∷ hs) = fill_hours (set_at h.hour h.count filled) hs

unfoldable pub hours_of : AnalyticsData → Row
unfolding fill_hours zeros
hours_of a = fill_hours (zeros 24) a.activity_by_hour

-- The numbers of an array without holes. With one `Math.max` is NaN, and so is all that is computed
-- from it: `none`.
unfoldable pub counts_of : Row → Option (List ℕ)
counts_of [] = some []
counts_of (none ∷ xs) = none
counts_of (some n ∷ xs) = elim (counts_of xs) [ none ↦ none | some ns ↦ some (n ∷ ns) ]
