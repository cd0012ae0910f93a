-- ===== src/Api/Monitor.antt =====
-- Statistics, risk scores, alerts and their rules, the hash chain, the forensics graph and the
-- platform's settings: reads, and the one action on an alert.
use the_eye.Base.{ℕ, Bool, Option, List, [], ◌∷◌, String, ◌⧺◌}
use the_eye.Json.{str}
use the_eye.Http.{Endpoint, get_call, body_call}

pub record OverviewStats : Type 0 where
  pub events_today : ℕ
  pub critical_flags : ℕ
  pub active_sources : ℕ
  pub high_risk_users : ℕ

pub record ActorRiskScore : Type 0 where
  pub actor_id : String
  pub risk_score : ℕ
  pub total_events : ℕ
  pub failed_count : ℕ
  pub critical_count : ℕ
  pub admin_count : ℕ
  pub financial_count : ℕ
  pub last_seen_at : Option String

pub record AlertRead : Type 0 where
  pub key : String
  pub rule_id : String
  pub rule_name : String
  pub severity : String
  pub actor_id : String
  pub message : String
  pub detected_at : String
  pub status : String
  pub acknowledged_by : Option String
  pub acknowledged_at : Option String

pub data AlertAction : Type 0 where
  acknowledged escalated : AlertAction

abbrev pub alert_action_text : AlertAction → String
alert_action_text acknowledged = "acknowledged"
alert_action_text escalated = "escalated"

pub record Divergence : Type 0 where
  pub sequence_num : ℕ
  pub field : String
  pub expected : String
  pub actual : String

pub record ChainVerifyResult : Type 0 where
  pub ok : Bool
  pub records_checked : ℕ
  pub divergences : List Divergence

pub data NodeKind : Type 0 where
  actor target : NodeKind

pub record NetworkNode : Type 0 where
  pub id : String
  pub kind : NodeKind
  pub label : String

pub record NetworkEdge : Type 0 where
  pub source : String
  pub target : String
  pub weight : ℕ

pub record NetworkGraph : Type 0 where
  pub nodes : List NetworkNode
  pub edges : List NetworkEdge

pub data MonitorCall : Type 0 where
  get_overview_stats get_actor_risk_scores list_alerts : MonitorCall
  act_on_alert : (key rule_id actor_id : String) → AlertAction → MonitorCall
  verify_chain get_forensics_network : MonitorCall

unfoldable pub monitor_endpoint : MonitorCall → Endpoint
monitor_endpoint get_overview_stats = get_call "/v1/stats/overview" []
monitor_endpoint get_actor_risk_scores = get_call "/v1/risk/actors" []
monitor_endpoint list_alerts = get_call "/v1/alerts" []
monitor_endpoint (act_on_alert key rule_id actor_id action) =
    body_call "POST" ("/v1/alerts/" ⧺ key ⧺ "/action") (
      ("rule_id", str rule_id)
      ∷ ("actor_id", str actor_id)
      ∷ ("action", str (alert_action_text action))
      ∷ [])
monitor_endpoint verify_chain = get_call "/v1/chain/verify" []
monitor_endpoint get_forensics_network = get_call "/v1/forensics/network" []

pub record ChainSummary : Type 0 where
  pub total_events : ℕ
  pub first_sequence_num : Option ℕ
  pub last_sequence_num : Option ℕ
  pub first_event_at : Option String
  pub last_event_at : Option String

pub data PlatformCall : Type 0 where
  get_analytics get_activity_heatmap get_chain_summary : PlatformCall
  list_alert_rules get_platform_info : PlatformCall

unfoldable pub platform_endpoint : PlatformCall → Endpoint
platform_endpoint get_analytics = get_call "/v1/stats/analytics" []
platform_endpoint get_activity_heatmap = get_call "/v1/stats/heatmap" []
platform_endpoint get_chain_summary = get_call "/v1/chain/summary" []
platform_endpoint list_alert_rules = get_call "/v1/alerts/rules" []
platform_endpoint get_platform_info = get_call "/v1/platform/info" []
