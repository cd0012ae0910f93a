-- ===== src/Staff/Plans.antt =====
-- The page of the subscription plans (staff-portal/src/app/plans/page.tsx).
pub mod Slug
pub mod Form
pub mod Laws
use the_eye.Base.{
  ℕ, ◌+◌, Bool, true, false, ◌||◌, Option, none, some, List, [], ◌∷◌, String, ◌==◌, filter,
  if◌then◌else◌,
}
use the_eye.Base.Keyed.{upsert, replace_id}
use the_eye.Json.{bool}
use the_eye.Browser.{Browser}
use the_eye.Http.{Fetched, api_message}
use the_eye.Staff.Api.Plans.{StaffPlan, list_plans, update_plan}
use the_eye.Staff.Api.Call.{plans}
use the_eye.Staff.Page.{staff_take}

pub data PlanModal : Type 0 where
  closed new_plan : PlanModal
  editing : StaffPlan → PlanModal

-- `warning` is the text of the last `alert`.
pub record PlansPage : Type 0 where
  pub listed : List StaffPlan
  pub loading : Bool
  pub error : Option String
  pub modal : PlanModal
  pub archiving : Option String
  pub warning : Option String

abbrev pub plan_id : StaffPlan → String
plan_id p = p.id

unfoldable pub handle_saved : StaffPlan → PlansPage → PlansPage
handle_saved saved page = record page { listed = upsert plan_id saved page.listed; modal = closed }

module _ (env : Option String) where
  unfoldable pub load_plans : Fetched (List StaffPlan) → PlansPage → Browser → PlansPage × Browser
  load_plans = staff_take env (plans list_plans) (record {
    taken = λ ps p. record p { listed = ps };
    failed = λ f p. record p { error = some (api_message "Failed to load plans." f) };
    finally = λ p. record p { loading = false };
  })

  -- The flag is the answer to `confirm`.
  unfoldable pub handle_archive :
      StaffPlan → Bool → Fetched StaffPlan → PlansPage → Browser → PlansPage × Browser
  handle_archive plan false reply page b = (page, b)
  handle_archive plan true reply page b =
      staff_take env (plans (update_plan plan.id (("is_active", bool false) ∷ [])))
        (record {
          taken = λ updated p. record p { listed = replace_id plan_id updated p.listed };
          failed = λ f p. record p { warning = some "Failed to archive plan." };
          finally = λ p. record p { archiving = none };
        })
        reply (record page { archiving = some plan.id }) b

-- What the page shows of its plans.
unfoldable pub active_plans : List StaffPlan → List StaffPlan
active_plans ps = filter (λ p. p.is_active) ps

unfoldable pub total_tenants : List StaffPlan → ℕ
total_tenants [] = 0
total_tenants (p ∷ ps) = p.tenant_count + total_tenants ps

abbrev is_truthy : Option String → Bool
is_truthy none = false
is_truthy (some s) = if s == "" then false else true

unfoldable pub with_paddle : List StaffPlan → List StaffPlan
with_paddle ps =
    filter (λ p. is_truthy p.paddle_price_id_monthly || is_truthy p.paddle_price_id_annual) ps
