-- ===== src/Alerts.antt =====
-- The page of the alerts (frontend/src/app/alerts/page.tsx).
pub mod Laws
use the_eye.Base.{Bool, true, false, Option, none, some, List, String}
use the_eye.Browser.{Browser}
use the_eye.Http.{Fetched, Outcome, value, no_content, raised, Failure, api_message, any_message}
use the_eye.Api.Monitor.{AlertRead, AlertAction, list_alerts, act_on_alert}
use the_eye.Api.Call.{monitor, perform}
use the_eye.Page.{Handlers, attempt_then_load}

pub record AlertsPage : Type 0 where
  pub alerts : List AlertRead
  pub error : Option String
  pub loading : Bool
  pub acting_on : Option String

-- The answer to the list; one with no content is left aside.
listed : Outcome (List AlertRead) → AlertsPage → AlertsPage
listed (value found) page = record page { alerts = found; loading = false }
listed no_content page = record page { loading = false }
listed (raised f) page = record page {
  error = some (any_message "Failed to load alerts" f);
  loading = false;
}

module _ (env : Option String) where
  pub refresh : Fetched (List AlertRead) → AlertsPage → Browser → AlertsPage × Browser
  unfolding listed
  refresh list page b =
      let (result, after) = perform env (monitor list_alerts) list b in
      (listed result (record page { loading = true }), after)

  pub handle_action {ℓ} :
      {T : Type ℓ}
      → AlertRead
      → AlertAction
      → Fetched T
      → Fetched (List AlertRead)
      → AlertsPage
      → Browser
      → AlertsPage × Browser
  unfolding refresh
  handle_action alert action reply list page =
      attempt_then_load env (monitor (act_on_alert alert.key alert.rule_id alert.actor_id action))
        (record {
          done = λ p. p;
          failed = λ f p. record p { error = some (api_message "Failed to update alert" f) };
          finally = λ p. record p { acting_on = none };
        })
        reply (refresh list) (record page { acting_on = some alert.key })
