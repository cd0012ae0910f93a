-- ===== src/Staff/Plans/Form.antt =====
-- The dialog in which a plan is made or edited (PlanModal of staff-portal/src/app/plans/page.tsx).
pub mod Laws
use the_eye.Base.{
  ◌≡◌, ℕ, Bool, true, false, not, Option, none, some, is_some, List, [], ◌∷◌, map, String, ◌==◌,
  filter, or_else, if◌then◌else◌,
}
use the_eye.Json.{Json, null, bool, num, hundredths, str, Items, nil, cons, arr, optional}
use the_eye.Text.{trim}
use the_eye.Browser.{Browser}
use the_eye.Http.{Fetched, Outcome, value, no_content, raised, api_message}
use the_eye.Query.Decimal.{decimal}
use the_eye.Query.Decimal.Cents.{price_text}
use the_eye.Staff.Api.Plans.{StaffPlan, PlanCall, create_plan, update_plan}
use the_eye.Staff.Api.Call.{plans, staff_perform}
use the_eye.Text.Lines.{join_lines, split_lines}

-- JavaScript's parseFloat, in hundredths, and parseInt, with `none` for NaN. The price inputs let
-- only hundredths through (step 0.01). What the form relies on is that the two read back what
-- `toString` has written.
pub record Numbers : Type 0 where
  pub parse_float : String → Option ℕ
  pub parse_int : String → Option ℕ
  pub parse_float-price_text : (n : ℕ) → parse_float (price_text n) ≡ some n
  pub parse_int-decimal : (n : ℕ) → parse_int (decimal n) ≡ some n

pub record PlanForm : Type 0 where
  pub name : String
  pub slug : String
  pub description : String
  pub price_monthly : String
  pub price_annual : String
  pub paddle_price_id_monthly : String
  pub paddle_price_id_annual : String
  pub features : String
  pub sort_order : String
  pub is_public : Bool

abbrev pub number_text : Option ℕ → String
number_text none = ""
number_text (some n) = price_text n

abbrev blank_form : PlanForm
blank_form = record {
  name = "";
  slug = "";
  description = "";
  price_monthly = "";
  price_annual = "";
  paddle_price_id_monthly = "";
  paddle_price_id_annual = "";
  features = "";
  sort_order = "0";
  is_public = true;
}

unfoldable pub form_of : Option StaffPlan → PlanForm
form_of none = blank_form
form_of (some p) = record {
  name = p.name;
  slug = p.slug;
  description = or_else p.description "";
  price_monthly = number_text p.price_monthly;
  price_annual = number_text p.price_annual;
  paddle_price_id_monthly = or_else p.paddle_price_id_monthly "";
  paddle_price_id_annual = or_else p.paddle_price_id_annual "";
  features = join_lines (or_else p.features []);
  sort_order = decimal p.sort_order;
  is_public = p.is_public;
}

-- The text of each line without the white space around it, where there is any.
unfoldable pub feature_lines : String → List String
feature_lines text = filter (λ l. not (l == "")) (map trim (split_lines text))

-- What is sent of a plan; a property that is `undefined` is `none`.
pub record PlanPayload : Type 0 where
  pub name : String
  pub slug : String
  pub description : Option String
  pub price_monthly : Option Json
  pub price_annual : Option Json
  pub paddle_price_id_monthly : Option String
  pub paddle_price_id_annual : Option String
  pub features : Option (List String)
  pub sort_order : ℕ
  pub is_public : Bool

-- text || undefined
abbrev pub given : String → Option String
given s = if s == "" then none else some s

-- NaN is written as `null`
abbrev number_json : Option ℕ → Json
number_json none = null
number_json (some n) = hundredths n

module _ (numbers : Numbers) where
  abbrev pub price : String → Option Json
  price s = if s == "" then none else some (number_json (numbers.parse_float s))

  unfoldable pub payload : PlanForm → PlanPayload
  unfolding feature_lines
  payload f = record {
    name = f.name;
    slug = f.slug;
    description = given f.description;
    price_monthly = price f.price_monthly;
    price_annual = price f.price_annual;
    paddle_price_id_monthly = given f.paddle_price_id_monthly;
    paddle_price_id_annual = given f.paddle_price_id_annual;
    features = if f.features == "" then none else some (feature_lines f.features);
    sort_order = or_else (numbers.parse_int f.sort_order) 0;
    is_public = f.is_public;
  }

abbrev text_json : Option String → Option Json
text_json none = none
text_json (some s) = some (str s)

abbrev texts : List String → Items
texts [] = nil
texts (s ∷ ss) = cons (str s) (texts ss)

abbrev texts_json : Option (List String) → Option Json
texts_json none = none
texts_json (some ss) = some (arr (texts ss))

-- The properties that `JSON.stringify` writes.
unfoldable pub properties : PlanPayload → List (String × Json)
properties p = optional "name" (some (str p.name)) (
    optional "slug" (some (str p.slug)) (
      optional "description" (text_json p.description) (
        optional "price_monthly" p.price_monthly (
          optional "price_annual" p.price_annual (
            optional "paddle_price_id_monthly" (text_json p.paddle_price_id_monthly) (
              optional "paddle_price_id_annual" (text_json p.paddle_price_id_annual) (
                optional "features" (texts_json p.features) (
                  optional "sort_order" (some (num p.sort_order))
                    (optional "is_public" (some (bool p.is_public)) [])))))))))

-- The call of the dialog: an edited plan is changed, another is made.
abbrev pub plan_call : Option StaffPlan → List (String × Json) → PlanCall
plan_call none sent = create_plan sent
plan_call (some p) sent = update_plan p.id sent

-- The dialog's own state, besides the form.
pub record Dialog : Type 0 where
  pub loading : Bool
  pub error : Option String

module _ (numbers : Numbers) (env : Option String) where
  -- The saved plan, for `onSave`, if there is one.
  abbrev pub submitted : Outcome StaffPlan → Dialog → Dialog × Option StaffPlan
  submitted (value saved) d = (record d { loading = false }, some saved)
  submitted no_content d = (record d { loading = false }, none)
  submitted (raised f) d =
      (record d { loading = false; error = some (api_message "Failed to save." f) }, none)

  unfoldable pub submit_plan :
      Option StaffPlan
      → PlanForm
      → Fetched StaffPlan
      → Dialog
      → Browser
      → (Dialog × Option StaffPlan) × Browser
  unfolding payload properties
  submit_plan plan form reply d b =
      let sent = properties (payload numbers form) in
      let (result, after) = staff_perform env (plans (plan_call plan sent)) reply b in
      (submitted result (record d { loading = true; error = none }), after)
