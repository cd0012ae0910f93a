-- ===== src/Staff/Api/Plans.antt =====
-- Plans and their assignment, billing, revenue and the platform's analytics. The properties of a
-- new or changed plan are those of the payload that the caller fills. A plan's prices are counted in
-- hundredths, which are as fine as the plans page takes them.
use the_eye.Base.{ℕ, Bool, Option, none, some, List, [], ◌∷◌, String, ◌⧺◌}
use the_eye.Base.Dict.{Dict}
use the_eye.Json.{Json, str, text_or_null, optional}
use the_eye.Http.{Endpoint, get_call, body_call, with_json_headers}

pub record StaffPlan : Type 0 where
  pub id : String
  pub name : String
  pub slug : String
  pub description : Option String
  pub price_monthly : Option ℕ
  pub price_annual : Option ℕ
  pub currency : String
  pub paddle_price_id_monthly : Option String
  pub paddle_price_id_annual : Option String
  pub features : Option (List String)
  pub limits : Option (Dict (Option ℕ))
  pub is_active : Bool
  pub is_public : Bool
  pub sort_order : ℕ
  pub tenant_count : ℕ

pub data PlanCall : Type 0 where
  list_plans get_billing_overview get_platform_analytics get_revenue_stats : PlanCall
  create_plan : (payload : List (String × Json)) → PlanCall
  update_plan : (id : String) (payload : List (String × Json)) → PlanCall
  assign_plan : (tenant_id : String) (plan_id subscription_status : Option String) → PlanCall

abbrev status_json : Option String → Option Json
status_json none = none
status_json (some s) = some (str s)

unfoldable pub plan_endpoint : PlanCall → Endpoint
plan_endpoint list_plans = get_call "/v1/staff/plans" []
plan_endpoint get_billing_overview = get_call "/v1/staff/billing" []
plan_endpoint get_platform_analytics = get_call "/v1/staff/analytics" []
plan_endpoint get_revenue_stats = get_call "/v1/staff/revenue" []
plan_endpoint (create_plan payload) = with_json_headers (body_call "POST" "/v1/staff/plans" payload)
plan_endpoint (update_plan id payload) =
    with_json_headers (body_call "PATCH" ("/v1/staff/plans/" ⧺ id) payload)
plan_endpoint (assign_plan tenant_id plan_id subscription_status) = with_json_headers (
    body_call "POST" ("/v1/staff/tenants/" ⧺ tenant_id ⧺ "/assign-plan") (
      ("plan_id", text_or_null plan_id)
      ∷ optional "paddle_subscription_status" (status_json subscription_status) []))
