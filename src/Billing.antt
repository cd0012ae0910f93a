-- ===== src/Billing.antt =====
-- The billing page of the dashboard (frontend/src/app/billing/page.tsx): the plans, the subscription
-- and the start of a checkout.
pub mod Laws
use the_eye.Base.{
  ℕ, Bool, true, false, not, ◌&&◌, Option, none, some, List, [], ◌∷◌, String, ◌⧺◌, ◌==◌, eqb,
  or_else, if◌then◌else◌,
}
use the_eye.Browser.{Browser, navigate}
use the_eye.Http.{Fetched, Outcome, value, no_content, raised, api_message, or_text}
use the_eye.Api.Keys.{
  Plan, SubscriptionOut, CheckoutResponse, BillingCycle, cycle_text, monthly, annual,
  get_public_plans, get_tenant_subscription, create_checkout,
}
use the_eye.Api.Call.{billing, perform}

pub data MessageKind : Type 0 where
  info error success : MessageKind

pub record Message : Type 0 where
  pub text : String
  pub kind : MessageKind

pub record BillingPage : Type 0 where
  pub plans : List Plan
  pub sub : Option SubscriptionOut
  pub loading : Bool
  pub checkout_loading : Option String
  pub message : Option Message

-- Each of the two loads has its own error: no plans, no subscription.
abbrev pub plans_or_none : Outcome (List Plan) → List Plan
plans_or_none (value ps) = ps
plans_or_none _ = []

abbrev pub sub_or_none : Outcome SubscriptionOut → Option SubscriptionOut
sub_or_none (value s) = some s
sub_or_none _ = none

abbrev pub note : MessageKind → String → BillingPage → BillingPage
note kind text p = record p { message = some (record { text = text; kind = kind }) }

unfoldable pub is_truthy : Option String → Bool
is_truthy none = false
is_truthy (some s) = not (s == "")

abbrev pub unexpected : String
unexpected = "Unexpected response from payment server. Please try again."

-- What the answer to the checkout does: sales are to be contacted, the browser goes to the checkout,
-- or the answer is not understood. Each return goes through `finally`.
unfoldable pub checked_out : CheckoutResponse → BillingPage → Browser → BillingPage × Browser
unfolding is_truthy
checked_out r p b =
    if r.contact_sales
    then (note info (or_text r.message "Contact our sales team to set up this plan.") p, b)
    else if is_truthy r.checkout_url
    then (p, navigate (or_else r.checkout_url "") b)
    else (note error unexpected p, b)

abbrev ready : BillingPage × Browser → BillingPage × Browser
ready (p, b) = (record p { checkout_loading = none }, b)

-- With no content `result.contact_sales` throws inside the `try`.
unfoldable pub after_checkout :
    Outcome CheckoutResponse → BillingPage → Browser → BillingPage × Browser
unfolding checked_out
after_checkout (value r) p b = ready (checked_out r p b)
after_checkout no_content p b =
    ready (note error "Failed to start checkout. Please try again." p, b)
after_checkout (raised f) p b =
    ready (note error (api_message "Failed to start checkout. Please try again." f) p, b)

module _ (env : Option String) where
  unfoldable pub load_billing :
      Fetched (List Plan) → Fetched SubscriptionOut → BillingPage → Browser → BillingPage × Browser
  load_billing plans_reply sub_reply page b =
      let (plans, b₁) = perform env (billing get_public_plans) plans_reply b in
      let (sub, b₂) = perform env (billing get_tenant_subscription) sub_reply b₁ in
      (record page { plans = plans_or_none plans; sub = sub_or_none sub; loading = false }, b₂)

  unfoldable pub handle_subscribe :
      Plan → BillingCycle → Fetched CheckoutResponse → BillingPage → Browser → BillingPage × Browser
  unfolding after_checkout
  handle_subscribe plan cycle reply page b =
      let (result, after) = perform env (billing (create_checkout plan.id cycle)) reply b in
      after_checkout result
        (record page { message = none; checkout_loading = some (plan.id ⧺ cycle_text cycle) }) after

-- What the card of a plan shows.
unfoldable pub price_of : BillingCycle → Plan → Option ℕ
price_of annual p = p.price_annual
price_of monthly p = p.price_monthly

abbrev is_free : Option ℕ → Bool
is_free none = true
is_free (some n) = eqb n 0

unfoldable pub is_enterprise : Plan → Bool
is_enterprise p = is_free p.price_monthly && is_free p.price_annual
