-- ===== src/Alerts/Laws.antt =====
-- Acting on an alert.
use the_eye.Base.{false, Option, none, List, String, ◌≡◌, ◌∙◌}
use the_eye.Browser.{Browser}
use the_eye.Http.{Fetched, value, outcome}
use the_eye.Api.Monitor.{AlertRead, AlertAction, list_alerts, act_on_alert}
use the_eye.Api.Call.{monitor, asked}
use the_eye.Api.Call.Laws.{perform_of_value}
use the_eye.Page.Laws.{attempt_then_load_of_value}
use the_eye.Alerts.{AlertsPage, handle_action, refresh}

refresh_of_value :
    (env : Option String) (list : Fetched (List AlertRead)) (page : AlertsPage) (b : Browser)
    {found : List AlertRead}
    → outcome list ≡ value found
    → refresh env list page b
      ≡ (record page { alerts = found; loading = false }, asked env (monitor list_alerts) b)
unfolding refresh
refresh_of_value env list page b h = rw (perform_of_value env (monitor list_alerts) list b h)

-- If the server records an action on an alert and then answers with the list, the two calls are
-- sent in this order, the list is shown, and the page is neither acting nor loading; what it
-- showed as an error stays.
pub handle_action_success {ℓ} :
    {T : Type ℓ} (env : Option String) (alert : AlertRead) (action : AlertAction)
    (reply : Fetched T) (list : Fetched (List AlertRead)) (page : AlertsPage) (b : Browser) {v : T}
    {found : List AlertRead}
    → outcome reply ≡ value v
    → outcome list ≡ value found
    → handle_action env alert action reply list page b ≡ (
      record page { alerts = found; loading = false; acting_on = none },
      asked env
          (monitor list_alerts)
          (asked env (monitor (act_on_alert alert.key alert.rule_id alert.actor_id action)) b),
    )
unfolding handle_action
handle_action_success env alert action reply list page b done listed =
    let call = monitor (act_on_alert alert.key alert.rule_id alert.actor_id action) in
    attempt_then_load_of_value env call reply _ b _ (refresh env list) done
    ∙ refresh_of_value env list (record page { acting_on = none }) (asked env call b) listed
