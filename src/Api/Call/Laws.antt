-- ===== src/Api/Call/Laws.antt =====
-- What holds of the request of every call.
use the_eye.Base.{
  Option, true, false, some, List, String, ◌∷◌, ◌≡◌, ◌==◌, ◌&&◌, is_some, arith, refl,
}
use the_eye.Base.Dict.{Dict, lookup}
use the_eye.Json.{Json}
use the_eye.Browser.{Browser, Wire}
use the_eye.Client.{react}
use the_eye.Http.{
  Outcome, value, outcome, Fetched, wire, api_base, get_call, bare_call, body_call,
  with_json_headers,
}
use the_eye.Client.Laws.{sent-request, request_of_outcome, request_of_value}
use the_eye.Api.Auth.{AuthCall, auth_endpoint, logout}
use the_eye.Api.Events.{
  EventCall, event_endpoint, get_event, FlagCall, flag_endpoint, get_event_flags,
}
use the_eye.Api.Users.{
  UserCall, user_endpoint, list_users, SourceCall, source_endpoint, list_sources,
}
use the_eye.Api.Monitor.{
  MonitorCall, monitor_endpoint, list_alerts, PlatformCall, platform_endpoint, get_analytics,
}
use the_eye.Api.Oversight.{OversightCall, oversight_endpoint, get_intrusion_stats}
use the_eye.Api.Keys.{
  KeyCall, key_endpoint, list_api_keys, BillingCall, billing_endpoint, get_public_plans,
}
use the_eye.Api.Activity.{ActivityCall, activity_endpoint, list_machines}
use the_eye.Api.Account.{AccountCall, account_endpoint, get_billing_config}
use the_eye.Api.Call.{
  Call, auth, event, flag, user, source, monitor, platform, oversight, key, billing, activity,
  account, endpoint, asked, perform,
}

-- How each request is authorised and typed.
pub record IsSessionWire (env : Option String) (w : Wire) : Type 0 where
  pub origin : w.origin ≡ api_base env
  pub include : w.include ≡ true
  pub content_type : lookup "Content-Type" w.headers ≡ some "application/json"
  pub no_body_on_get : (w.method == "GET" && is_some w.body) ≡ false

module _ (env : Option String) (path : String) where
  get_call-IsSessionWire :
      (query : Dict String) → IsSessionWire env (wire env (get_call path query))
  unfolding wire lookup
  get_call-IsSessionWire query = record {
    origin = refl;
    include = refl;
    content_type = refl;
    no_body_on_get = ground arith;
  }

  bare_call-IsSessionWire : (method : String) → IsSessionWire env (wire env (bare_call method path))
  unfolding wire lookup
  bare_call-IsSessionWire method = record {
    origin = refl;
    include = refl;
    content_type = refl;
    no_body_on_get = ground arith;
  }

  module _ (method : String) (properties : List (String × Json))
      (other : (method == "GET") ≡ false) where
    body_call-IsSessionWire : IsSessionWire env (wire env (body_call method path properties))
    unfolding wire lookup
    body_call-IsSessionWire = record {
      origin = refl;
      include = refl;
      content_type = refl;
      no_body_on_get = rw other;
    }

    json_body_call-IsSessionWire :
        IsSessionWire env (wire env (with_json_headers (body_call method path properties)))
    unfolding wire lookup
    json_body_call-IsSessionWire = record {
      origin = refl;
      include = refl;
      content_type = refl;
      no_body_on_get = rw other;
    }

ruleset wire_rules = (
  get_call-IsSessionWire, bare_call-IsSessionWire, body_call-IsSessionWire,
  json_body_call-IsSessionWire,
)

module _ (env : Option String) where
  wire-auth_endpoint : (c : AuthCall) → IsSessionWire env (wire env (auth_endpoint c))
  unfolding auth_endpoint
  wire-auth_endpoint logout = search wire_rules
  wire-auth_endpoint _ = search wire_rules

  wire-event_endpoint : (c : EventCall) → IsSessionWire env (wire env (event_endpoint c))
  unfolding event_endpoint
  wire-event_endpoint (get_event i) = search wire_rules
  wire-event_endpoint _ = search wire_rules

  wire-flag_endpoint : (c : FlagCall) → IsSessionWire env (wire env (flag_endpoint c))
  unfolding flag_endpoint
  wire-flag_endpoint (get_event_flags i) = search wire_rules
  wire-flag_endpoint _ = search wire_rules

  wire-user_endpoint : (c : UserCall) → IsSessionWire env (wire env (user_endpoint c))
  unfolding user_endpoint
  wire-user_endpoint list_users = search wire_rules
  wire-user_endpoint _ = search wire_rules

  wire-source_endpoint : (c : SourceCall) → IsSessionWire env (wire env (source_endpoint c))
  unfolding source_endpoint
  wire-source_endpoint list_sources = search wire_rules
  wire-source_endpoint _ = search wire_rules

  wire-monitor_endpoint : (c : MonitorCall) → IsSessionWire env (wire env (monitor_endpoint c))
  unfolding monitor_endpoint
  wire-monitor_endpoint list_alerts = search wire_rules
  wire-monitor_endpoint _ = search wire_rules

  wire-platform_endpoint : (c : PlatformCall) → IsSessionWire env (wire env (platform_endpoint c))
  unfolding platform_endpoint
  wire-platform_endpoint get_analytics = search wire_rules
  wire-platform_endpoint _ = search wire_rules

  wire-oversight_endpoint :
      (c : OversightCall) → IsSessionWire env (wire env (oversight_endpoint c))
  unfolding oversight_endpoint
  wire-oversight_endpoint get_intrusion_stats = search wire_rules
  wire-oversight_endpoint _ = search wire_rules

  wire-key_endpoint : (c : KeyCall) → IsSessionWire env (wire env (key_endpoint c))
  unfolding key_endpoint
  wire-key_endpoint list_api_keys = search wire_rules
  wire-key_endpoint _ = search wire_rules

  wire-billing_endpoint : (c : BillingCall) → IsSessionWire env (wire env (billing_endpoint c))
  unfolding billing_endpoint
  wire-billing_endpoint get_public_plans = search wire_rules
  wire-billing_endpoint _ = search wire_rules

  wire-activity_endpoint : (c : ActivityCall) → IsSessionWire env (wire env (activity_endpoint c))
  unfolding activity_endpoint
  wire-activity_endpoint list_machines = search wire_rules
  wire-activity_endpoint _ = search wire_rules

  wire-account_endpoint : (c : AccountCall) → IsSessionWire env (wire env (account_endpoint c))
  unfolding account_endpoint
  wire-account_endpoint get_billing_config = search wire_rules
  wire-account_endpoint _ = search wire_rules

  wire-endpoint-IsSessionWire : (c : Call) → IsSessionWire env (wire env (endpoint c))
  unfolding endpoint
  wire-endpoint-IsSessionWire (auth c) = wire-auth_endpoint c
  wire-endpoint-IsSessionWire (event c) = wire-event_endpoint c
  wire-endpoint-IsSessionWire (flag c) = wire-flag_endpoint c
  wire-endpoint-IsSessionWire (user c) = wire-user_endpoint c
  wire-endpoint-IsSessionWire (source c) = wire-source_endpoint c
  wire-endpoint-IsSessionWire (monitor c) = wire-monitor_endpoint c
  wire-endpoint-IsSessionWire (platform c) = wire-platform_endpoint c
  wire-endpoint-IsSessionWire (oversight c) = wire-oversight_endpoint c
  wire-endpoint-IsSessionWire (key c) = wire-key_endpoint c
  wire-endpoint-IsSessionWire (billing c) = wire-billing_endpoint c
  wire-endpoint-IsSessionWire (activity c) = wire-activity_endpoint c
  wire-endpoint-IsSessionWire (account c) = wire-account_endpoint c

-- Every call sends one request, whatever the answer: to the API's origin, with the session cookie
-- included, as JSON, and with no body where the method is GET (which `fetch` would refuse).
pub sent-perform {ℓ} :
    {T : Type ℓ} (env : Option String) (c : Call) (reply : Fetched T) (b : Browser)
    → (w : Wire) × ((perform env c reply b).1.sent ≡ w ∷ b.sent) × IsSessionWire env w
unfolding perform
sent-perform env c reply b = (
  wire env (endpoint c),
  sent-request env (endpoint c) b reply,
  wire-endpoint-IsSessionWire env c,
)

module _ {ℓ} {T : Type ℓ} (env : Option String) (c : Call) (reply : Fetched T) (b : Browser) where
  pub perform_of_outcome :
      {o : Outcome T} → outcome reply ≡ o → perform env c reply b ≡ (o, react reply (asked env c b))
  unfolding perform
  perform_of_outcome h = request_of_outcome env (endpoint c) b reply h

  pub perform_of_value :
      {v : T} → outcome reply ≡ value v → perform env c reply b ≡ (value v, asked env c b)
  unfolding perform
  perform_of_value h = request_of_value env (endpoint c) b reply h
