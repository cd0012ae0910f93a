-- ===== src/Examples/Dashboard.antt =====
-- The pages of the dashboard that show figures: activity, intrusions, billing, the chain.
use the_eye.Base.{
  ℕ, true, false, none, some, List, [], ◌∷◌, String, ◌⧺◌, ◌≡◌, refl, arith, All, filter, length,
}
use the_eye.Http.{outcome}
use the_eye.Query.Decimal.{decimal}
use the_eye.Api.Keys.{Plan, CheckoutResponse, monthly, create_checkout}
use the_eye.Api.Oversight.{IntrusionAttempt}
use the_eye.Api.Call.{billing, asked}
use the_eye.Views.{HeatmapCell}
use the_eye.Activity.{Grid, build_grid}
use the_eye.Activity.Laws.{cell_at, last_count, build_grid_lem}
use the_eye.Intrusions.{clusters}
use the_eye.Intrusions.Laws.{IsCounted, is_located, total, clusters_total}
use the_eye.Billing.{BillingPage, handle_subscribe}
use the_eye.Billing.Laws.{Arrives, handle_subscribe_answered}
use the_eye.Examples.Data.{env, home, answered}

abbrev cells : List HeatmapCell
cells =
    record { day = 1; hour = 9; count = 12 }
    ∷ record { day = 6; hour = 23; count = 3 }
    ∷ record { day = 1; hour = 9; count = 14 }
    ∷ []

build_grid_lem_example :
    (g : Grid) × (build_grid cells ≡ some g) × ((d h : ℕ) → cell_at d h g ≡ last_count d h cells 0)
build_grid_lem_example = build_grid_lem cells (omega arith, (omega arith, (omega arith, tt)))

abbrev attempt_from : String → ℕ → IntrusionAttempt ℕ
attempt_from ip lat = record {
  ip = some ip;
  country = "NL";
  city = none;
  latitude = some lat;
  longitude = some 4;
  event_type = "auth.login_failed";
  actor_id = none;
  occurred_at = "2025-01-01T00:00:00Z";
}

abbrev attempts : List (IntrusionAttempt ℕ)
attempts =
    attempt_from "10.0.0.1" 52
    ∷ record (attempt_from "10.0.0.2" 0) { latitude = none }
    ∷ attempt_from "10.0.0.3" 52
    ∷ []

abbrev pair_key : ℕ → ℕ → String
pair_key lat lon = decimal lat ⧺ "," ⧺ decimal lon

clusters_total_example :
    (total (clusters pair_key attempts) ≡ length (filter is_located attempts))
    × All (λ d. IsCounted d.1) (clusters pair_key attempts)
clusters_total_example = clusters_total pair_key attempts

abbrev team_plan : Plan
team_plan = record {
  id = "p1";
  name = "Team";
  slug = "team";
  description = none;
  price_monthly = some 40;
  price_annual = some 400;
  currency = "USD";
  features = none;
  limits = none;
  is_public = true;
  sort_order = 1;
  has_paddle = true;
  paddle_price_id_monthly = some "pri_1";
  paddle_price_id_annual = none;
}

abbrev checkout : CheckoutResponse
checkout = record {
  checkout_url = some "https://pay.example.org/t1";
  transaction_id = some "t1";
  contact_sales = false;
  message = "";
}

abbrev billing_page : BillingPage
billing_page = record {
  plans = team_plan ∷ [];
  sub = none;
  loading = false;
  checkout_loading = none;
  message = none;
}

handle_subscribe_answered_example :
    Arrives checkout
      (handle_subscribe env team_plan monthly (answered checkout) billing_page home)
      (asked env (billing (create_checkout "p1" monthly)) home)
unfolding outcome
handle_subscribe_answered_example =
    handle_subscribe_answered env team_plan monthly (answered checkout) billing_page home refl
