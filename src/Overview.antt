-- ===== src/Overview.antt =====
-- The first page of the dashboard (frontend/src/app/overview/page.tsx): four calls whose answers are
-- awaited together. The messages of the two errors of the runtime that an answer without content
-- leads to are parameters.
pub mod Laws
use the_eye.Base.{
  ℕ, Bool, true, false, Option, none, some, List, [], ◌∷◌, String, ◌==◌, filter, take, leb, or_else,
  if◌then◌else◌,
}
use the_eye.Browser.{Browser}
use the_eye.Http.{Fetched, Outcome, value, no_content, raised, Failure, other_error, any_message}
use the_eye.Api.Events.{EventRead, EventSearchParams, search_events}
use the_eye.Api.Monitor.{
  OverviewStats, AlertRead, ActorRiskScore, get_overview_stats, list_alerts, get_actor_risk_scores,
}
use the_eye.Api.Call.{event, monitor, perform}

pub record OverviewPage : Type 0 where
  pub stats : Option OverviewStats
  pub recent : Option (List EventRead)
  pub alerts : List AlertRead
  pub risk_scores : List ActorRiskScore
  pub error : Option String
  pub loading : Bool

abbrev pub overview_params : EventSearchParams
overview_params = record {
  actor_id = none;
  event_type = none;
  event_category = none;
  outcome = none;
  q = none;
  limit = some 10;
  offset = none;
}

abbrev pub open_alerts : List AlertRead → List AlertRead
open_alerts found = take 8 (filter (λ a. a.status == "open") found)

-- The four answers to Promise.all
pub record Answers : Type 0 where
  pub stats_answer : Outcome OverviewStats
  pub events_answer : Outcome (List EventRead)
  pub alerts_answer : Outcome (List AlertRead)
  pub scores_answer : Outcome (List ActorRiskScore)

abbrev pub failure_of {ℓ} : {T : Type ℓ} → Outcome T → Option Failure
failure_of (raised f) = some f
failure_of _ = none

abbrev pub content_of {ℓ} : {T : Type ℓ} → Outcome T → Option T
content_of (value v) = some v
content_of _ = none

-- The failures of the calls, in the order of the calls.
abbrev pub or_next : Option Failure → List Failure → List Failure
or_next none fs = fs
or_next (some f) fs = f ∷ fs

unfoldable pub failures : Answers → List Failure
failures a = or_next (failure_of a.stats_answer) (
    or_next (failure_of a.events_answer)
      (or_next (failure_of a.alerts_answer) (or_next (failure_of a.scores_answer) [])))

-- setError(e.message || "Failed to load overview")
abbrev pub overview_failed : Failure → OverviewPage → OverviewPage
overview_failed f page = record page { error = some (any_message "Failed to load overview" f) }

-- What `then` does; `filter` or `slice` of an answer without content throws.
abbrev set_scores : String → Option (List ActorRiskScore) → OverviewPage → OverviewPage
set_scores no_slice none page = overview_failed (other_error no_slice) page
set_scores no_slice (some scores) page = record page { risk_scores = take 6 scores }

abbrev set_alerts :
    String
    → String
    → Option (List AlertRead)
    → Option (List ActorRiskScore)
    → OverviewPage
    → OverviewPage
set_alerts no_filter no_slice none scores page = overview_failed (other_error no_filter) page
set_alerts no_filter no_slice (some found) scores page =
    set_scores no_slice scores (record page { alerts = open_alerts found })

unfoldable pub all_came : String → String → Answers → OverviewPage → OverviewPage
all_came no_filter no_slice a page =
    set_alerts no_filter no_slice (content_of a.alerts_answer) (content_of a.scores_answer)
      (record page { stats = content_of a.stats_answer; recent = content_of a.events_answer })

-- The first failure to come is the one chosen of all failures; with none, `then` runs.
abbrev pub settle_overview :
    (Failure → List Failure → Failure)
    → String
    → String
    → List Failure
    → Answers
    → OverviewPage
    → OverviewPage
settle_overview first no_filter no_slice [] a page = record (all_came no_filter no_slice a page) {
  loading = false;
}
settle_overview first no_filter no_slice (f ∷ fs) a page =
    record (overview_failed (first f fs) page) { loading = false }

module _ (env : Option String) where
  -- The four calls; their answers come in any order, and the one that is refused with 401 clears the
  -- session, as every call does.
  unfoldable pub call_all :
      Fetched OverviewStats
      → Fetched (List EventRead)
      → Fetched (List AlertRead)
      → Fetched (List ActorRiskScore)
      → Browser
      → Answers × Browser
  call_all stats events alerts scores b =
      let (s, b₁) = perform env (monitor get_overview_stats) stats b in
      let (e, b₂) = perform env (event (search_events overview_params)) events b₁ in
      let (a, b₃) = perform env (monitor list_alerts) alerts b₂ in
      let (r, b₄) = perform env (monitor get_actor_risk_scores) scores b₃ in
      (record { stats_answer = s; events_answer = e; alerts_answer = a; scores_answer = r }, b₄)

  unfoldable pub load_overview :
      (Failure → List Failure → Failure)
      → String
      → String
      → Fetched OverviewStats
      → Fetched (List EventRead)
      → Fetched (List AlertRead)
      → Fetched (List ActorRiskScore)
      → OverviewPage
      → Browser
      → OverviewPage × Browser
  unfolding call_all failures all_came
  load_overview first no_filter no_slice stats events alerts scores page b =
      let (a, after) = call_all stats events alerts scores b in
      (
        settle_overview first no_filter no_slice (failures a) a (record page { loading = true }),
        after,
      )

-- The tone of a severity and of a score.
unfoldable pub severity_tone : String → String
severity_tone s = if s == "critical" then "danger" else if s == "high" then "warn" else "muted"

unfoldable pub risk_tone : ℕ → String
risk_tone score = if leb 50 score then "danger" else if leb 20 score then "warn" else "safe"
