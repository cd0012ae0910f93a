-- ===== src/Staff/Billing.antt =====
-- The billing page of the staff portal (staff-portal/src/app/billing/page.tsx): the overview of the
-- subscriptions, and the plans with the same dialog and handlers as on the page of the plans.
use the_eye.Base.{ℕ, Bool, true, false, Option, none, some, List, [], ◌∷◌, String}
use the_eye.Base.Keyed.{upsert, replace_id}
use the_eye.Json.{bool}
use the_eye.Browser.{Browser}
use the_eye.Http.{Fetched, api_message}
use the_eye.Staff.Api.Plans.{StaffPlan, list_plans, get_billing_overview, update_plan}
use the_eye.Staff.Api.Call.{plans}
use the_eye.Staff.Page.{staff_take}
use the_eye.Staff.Plans.{PlanModal, closed, plan_id}

pub record BillingOverview : Type 0 where
  pub total_tenants : ℕ
  pub paying : ℕ
  pub trialing : ℕ
  pub past_due : ℕ
  pub cancelled : ℕ
  pub other : ℕ
  pub status_breakdown : List (String × ℕ)

pub data BillingTab : Type 0 where
  overview_tab plans_tab : BillingTab

pub record BillingPage : Type 0 where
  pub tab : BillingTab
  pub overview : Option BillingOverview
  pub listed : List StaffPlan
  pub loading_overview : Bool
  pub loading_plans : Bool
  pub error : Option String
  pub modal : PlanModal
  pub archiving : Option String
  pub warning : Option String

module _ (env : Option String) where
  unfoldable pub load_overview :
      Fetched BillingOverview → BillingPage → Browser → BillingPage × Browser
  load_overview = staff_take env (plans get_billing_overview) (record {
    taken = λ o p. record p { overview = some o };
    failed = λ f p. record p { error = some (api_message "Failed to load billing data" f) };
    finally = λ p. record p { loading_overview = false };
  })

  unfoldable pub load_billing_plans :
      Fetched (List StaffPlan) → BillingPage → Browser → BillingPage × Browser
  load_billing_plans = staff_take env (plans list_plans) (record {
    taken = λ ps p. record p { listed = ps };
    failed = λ f p. record p { error = some (api_message "Failed to load plans" f) };
    finally = λ p. record p { loading_plans = false };
  })

  -- The flag is the answer to `confirm`.
  unfoldable pub archive_plan :
      StaffPlan → Bool → Fetched StaffPlan → BillingPage → Browser → BillingPage × Browser
  archive_plan plan false reply page b = (page, b)
  archive_plan plan true reply page b =
      staff_take env (plans (update_plan plan.id (("is_active", bool false) ∷ [])))
        (record {
          taken = λ updated p. record p { listed = replace_id plan_id updated p.listed };
          failed = λ f p. record p { warning = some "Failed to archive plan." };
          finally = λ p. record p { archiving = none };
        })
        reply (record page { archiving = some plan.id }) b

unfoldable pub plan_saved : StaffPlan → BillingPage → BillingPage
plan_saved saved page = record page { listed = upsert plan_id saved page.listed; modal = closed }
