-- ===== src/Examples/Plans.antt =====
-- The plans page of the staff portal.
use the_eye.Base.{true, false, none, some, [], ◌∷◌, String, ◌≡◌, refl, ap}
use the_eye.Base.Keyed.{distinct_ids}
use the_eye.Query.Decimal.{value_of, value_of-decimal}
use the_eye.Query.Decimal.Cents.{read_price, read_price-price_text}
use the_eye.Staff.Api.Plans.{StaffPlan}
use the_eye.Staff.Plans.{PlansPage, closed, editing, plan_id, handle_saved}
use the_eye.Staff.Plans.Laws.{plan_at, handle_saved_lem}
use the_eye.Staff.Plans.Form.{Numbers, form_of, payload}
use the_eye.Staff.Plans.Form.Laws.{payload-form_of, numbered}
use the_eye.Text.{trim}

abbrev plan : String → String → StaffPlan
plan id name = record {
  id = id;
  name = name;
  slug = "starter";
  description = none;
  price_monthly = some 4950;
  price_annual = none;
  currency = "USD";
  paddle_price_id_monthly = some "pri_1";
  paddle_price_id_annual = none;
  features = some ("Audit trail" ∷ "Alerts" ∷ []);
  limits = none;
  is_active = true;
  is_public = true;
  sort_order = 2;
  tenant_count = 5;
}

abbrev starter : StaffPlan
starter = plan "p1" "Starter"

abbrev renamed : StaffPlan
renamed = plan "p1" "Basic"

abbrev plans_page : PlansPage
plans_page = record {
  listed = starter ∷ plan "p2" "Business" ∷ [];
  loading = false;
  error = none;
  modal = editing starter;
  archiving = none;
  warning = none;
}

handle_saved_lem_example :
    (plan_at "p2" (handle_saved renamed plans_page) ≡ plan_at "p2" plans_page)
    × (distinct_ids plan_id (handle_saved renamed plans_page).listed ≡ true)
    × ((handle_saved renamed plans_page).modal ≡ closed)
handle_saved_lem_example = handle_saved_lem renamed plans_page "p2" refl

abbrev digits : Numbers
digits = record {
  parse_float = λ s. some (read_price s);
  parse_int = λ s. some (value_of s);
  parse_float-price_text = λ n. ap some (read_price-price_text n);
  parse_int-decimal = λ n. ap some (value_of-decimal n);
}

payload-form_of_example : payload digits (form_of (some starter)) ≡ record {
  name = "Starter";
  slug = "starter";
  description = none;
  price_monthly = numbered (some 4950);
  price_annual = none;
  paddle_price_id_monthly = some "pri_1";
  paddle_price_id_annual = none;
  features = some ("Audit trail" ∷ "Alerts" ∷ []);
  sort_order = 2;
  is_public = true;
}
unfolding trim
payload-form_of_example = payload-form_of digits starter refl
