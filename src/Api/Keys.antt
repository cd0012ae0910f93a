-- ===== src/Api/Keys.antt =====
-- API keys of the agents, plans, the tenant's subscription and its checkout.
use the_eye.Base.{ℕ, Bool, Option, none, some, List, [], ◌∷◌, String, ◌⧺◌, ◌==◌, if◌then◌else◌}
use the_eye.Base.Dict.{Dict}
use the_eye.Json.{Json, str, bool, optional}
use the_eye.Http.{Endpoint, get_call, bare_call, body_call, with_json_headers}

pub record ApiKeyOut : Type 0 where
  pub id : String
  pub name : String
  pub key_prefix : String
  pub is_active : Bool
  pub last_used_at : Option String
  pub expires_at : Option String
  pub created_at : String
  pub created_by_username : Option String

pub record ApiKeyCreated : Type 0 where
  pub key : ApiKeyOut
  pub full_key : String

pub data KeyCall : Type 0 where
  list_api_keys : KeyCall
  create_api_key : (name : String) (expires_at : Option String) → KeyCall
  update_api_key : (id : String) (name : Option String) (is_active : Option Bool) → KeyCall
  revoke_api_key : (id : String) → KeyCall

-- ...(expires_at ? { expires_at } : {})
abbrev truthy_text : Option String → Option Json
truthy_text none = none
truthy_text (some s) = if s == "" then none else some (str s)

abbrev json_text : Option String → Option Json
json_text none = none
json_text (some s) = some (str s)

abbrev json_bool : Option Bool → Option Json
json_bool none = none
json_bool (some b) = some (bool b)

unfoldable pub key_endpoint : KeyCall → Endpoint
key_endpoint list_api_keys = get_call "/v1/api-keys" []
key_endpoint (create_api_key name expires_at) =
    body_call "POST" "/v1/api-keys"
      (("name", str name) ∷ optional "expires_at" (truthy_text expires_at) [])
key_endpoint (update_api_key id name is_active) =
    body_call "PATCH" ("/v1/api-keys/" ⧺ id)
      (optional "name" (json_text name) (optional "is_active" (json_bool is_active) []))
key_endpoint (revoke_api_key id) = bare_call "DELETE" ("/v1/api-keys/" ⧺ id)

pub record Plan : Type 0 where
  pub id : String
  pub name : String
  pub slug : String
  pub description : Option String
  pub price_monthly : Option ℕ
  pub price_annual : Option ℕ
  pub currency : String
  pub features : Option (List String)
  pub limits : Option (Dict (Option ℕ))
  pub is_public : Bool
  pub sort_order : ℕ
  pub has_paddle : Bool
  pub paddle_price_id_monthly : Option String
  pub paddle_price_id_annual : Option String

pub record SubscriptionOut : Type 0 where
  pub tenant_id : String
  pub tenant_name : String
  pub plan : Option Plan
  pub paddle_subscription_id : Option String
  pub paddle_subscription_status : Option String
  pub paddle_customer_id : Option String

pub record CheckoutResponse : Type 0 where
  pub checkout_url : Option String
  pub transaction_id : Option String
  pub contact_sales : Bool
  pub message : String

pub data BillingCycle : Type 0 where
  monthly annual : BillingCycle

abbrev pub cycle_text : BillingCycle → String
cycle_text monthly = "monthly"
cycle_text annual = "annual"

pub data BillingCall : Type 0 where
  get_public_plans get_tenant_subscription : BillingCall
  create_checkout : (plan_id : String) → BillingCycle → BillingCall

unfoldable pub billing_endpoint : BillingCall → Endpoint
billing_endpoint get_public_plans = get_call "/v1/billing/plans" []
billing_endpoint get_tenant_subscription = get_call "/v1/billing/subscription" []
billing_endpoint (create_checkout plan_id billing_cycle) = with_json_headers (
    body_call "POST" "/v1/billing/checkout"
      (("plan_id", str plan_id) ∷ ("billing_cycle", str (cycle_text billing_cycle)) ∷ []))
