-- ===== src/Billing/Laws.antt =====
-- Where the start of a checkout leads.
use the_eye.Base.{
  Bool, not, ◌&&◌, Option, none, is_some, String, ◌≡◌, refl, ap, or_else, Bool-cases, inl, inr,
  if◌then◌else◌,
}
use the_eye.Browser.{Browser, navigate}
use the_eye.Http.{Fetched, value, outcome}
use the_eye.Api.Keys.{Plan, CheckoutResponse, BillingCycle, create_checkout}
use the_eye.Api.Call.{billing, asked}
use the_eye.Api.Call.Laws.{perform_of_value}
use the_eye.Billing.{BillingPage, is_truthy, checked_out, after_checkout, handle_subscribe}

-- An answer that sends the browser to a checkout.
abbrev pub leads_away : CheckoutResponse → Bool
leads_away r = not r.contact_sales && is_truthy r.checkout_url

abbrev pub Arrives : CheckoutResponse → BillingPage × Browser → Browser → Type 0
Arrives r (p, after) b =
    (p.checkout_loading ≡ none)
    × (after ≡ (if leads_away r then navigate (or_else r.checkout_url "") b else b))
    × (is_some p.message ≡ not (leads_away r))

after_checkout-Arrives :
    (r : CheckoutResponse) (p : BillingPage) (b : Browser)
    → p.message ≡ none
    → Arrives r (after_checkout (value r) p b) b
unfolding after_checkout checked_out
after_checkout-Arrives r p b h = elim (Bool-cases r.contact_sales) [
  | inl e ↦ rw e (refl, refl, refl)
  | inr e ↦ elim (Bool-cases (is_truthy r.checkout_url)) [
    | inl u ↦ rw e (rw u (refl, refl, ap is_some h))
    | inr u ↦ rw e (rw u (refl, refl, refl))
  ]
]

-- Where the server answers the start of a checkout, one request was sent, nothing is loading any
-- more, and either the browser goes to the address of the checkout and no message is shown, or it
-- stays and a message is: it goes just where sales need not be contacted and there is an address.
pub handle_subscribe_answered :
    (env : Option String) (plan : Plan) (cycle : BillingCycle) (reply : Fetched CheckoutResponse)
    (page : BillingPage) (b : Browser) {r : CheckoutResponse}
    → outcome reply ≡ value r
    → Arrives r
        (handle_subscribe env plan cycle reply page b)
        (asked env (billing (create_checkout plan.id cycle)) b)
unfolding handle_subscribe
handle_subscribe_answered env plan cycle reply page b {r} e =
    rw (perform_of_value env (billing (create_checkout plan.id cycle)) reply b e)
      (after_checkout-Arrives r _ (asked env (billing (create_checkout plan.id cycle)) b) refl)
