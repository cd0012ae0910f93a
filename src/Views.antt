-- ===== src/Views.antt =====
-- Pages that load one answer and show it: the alert rules, the risk of users, the timeline, the
-- activity and the whistleblowers' reports (frontend/src/app: alert-rules, users-risk, timeline,
-- activity, admin/whistleblower).
pub mod Laws
use the_eye.Base.{ℕ, Bool, true, false, Option, none, some, List, String}
use the_eye.Browser.{Browser}
use the_eye.Http.{Fetched, any_message}
use the_eye.Api.Events.{EventRead, EventSearchParams, search_events}
use the_eye.Api.Monitor.{
  ActorRiskScore, get_actor_risk_scores, list_alert_rules, get_activity_heatmap,
}
use the_eye.Api.Oversight.{list_whistleblower_reports}
use the_eye.Api.Call.{Call, event, monitor, platform, oversight}
use the_eye.Page.{Taking, attempt_take}

pub record View (A : Type 0) : Type 0 where
  pub shown : A
  pub error : Option String
  pub loading : Bool

abbrev pub view_handlers : {A : Type 0} → String → Taking A (View A)
view_handlers fallback = record {
  taken = λ a v. record v { shown = a };
  failed = λ f v. record v { error = some (any_message fallback f) };
  finally = λ v. record v { loading = false };
}

-- setLoading(true); call().then(set).catch(message or fallback).finally(() => setLoading(false))
unfoldable pub load_view :
    {A : Type 0} → Option String → Call → String → Fetched A → View A → Browser → View A × Browser
load_view env call fallback reply v =
    attempt_take env call (view_handlers fallback) reply (record v { loading = true })

pub record AlertRule : Type 0 where
  pub rule_id : String
  pub name : String
  pub severity : String
  pub description : String
  pub threshold : ℕ
  pub window_minutes : Option ℕ
  pub lookback_hours : Option ℕ
  pub category_filter : String

pub record HeatmapCell : Type 0 where
  pub day : ℕ
  pub hour : ℕ
  pub count : ℕ

pub record WhistleblowerReport : Type 0 where
  pub id : String
  pub category : String
  pub report_text : String
  pub created_at : String

abbrev pub timeline_params : EventSearchParams
timeline_params = record {
  actor_id = none;
  event_type = none;
  event_category = none;
  outcome = none;
  q = none;
  limit = some 200;
  offset = some 0;
}

module _ (env : Option String) where
  unfoldable pub load_rules :
      Fetched (List AlertRule) → View (List AlertRule) → Browser → View (List AlertRule) × Browser
  unfolding load_view
  load_rules = load_view env (platform list_alert_rules) "Failed to load rules"

  unfoldable pub load_risks :
      Fetched (List ActorRiskScore)
      → View (List ActorRiskScore)
      → Browser
      → View (List ActorRiskScore) × Browser
  unfolding load_view
  load_risks = load_view env (monitor get_actor_risk_scores) "Failed to load risk scores"

  unfoldable pub load_timeline :
      Fetched (List EventRead) → View (List EventRead) → Browser → View (List EventRead) × Browser
  unfolding load_view
  load_timeline = load_view env (event (search_events timeline_params)) "Failed to load timeline"

  unfoldable pub load_heatmap :
      Fetched (List HeatmapCell)
      → View (List HeatmapCell)
      → Browser
      → View (List HeatmapCell) × Browser
  unfolding load_view
  load_heatmap = load_view env (platform get_activity_heatmap) "Failed to load heatmap"

  unfoldable pub load_reports :
      Fetched (List WhistleblowerReport)
      → View (List WhistleblowerReport)
      → Browser
      → View (List WhistleblowerReport) × Browser
  unfolding load_view
  load_reports = load_view env (oversight list_whistleblower_reports) "Failed to load reports"
