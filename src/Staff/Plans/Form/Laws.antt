-- ===== src/Staff/Plans/Form/Laws.antt =====
-- A plan that is edited without a change is sent as it is, and a field that is cleared is not sent.
use text.Mathlib.TextLemmas.{cons-append}
use Prim.Native.String.{[], ◌∷◌}
use mathlib.Core.List.{[], ◌∷◌}
use the_eye.Base.{
  ℕ, Bool, true, false, not, ◌&&◌, Option, none, some, List, map, String, ◌≡◌, refl, ap, arith,
  ◌==◌, eq_iff, filter, all, or_else, if◌then◌else◌,
}
use the_eye.Json.{Json, hundredths}
use the_eye.Text.{trim, cons_not_nil}
use the_eye.Query.Decimal.Cents.{price_text_not_nil}
use the_eye.Staff.Api.Plans.{StaffPlan}
use the_eye.Staff.Plans.Form.{Numbers, number_text, form_of, payload, given, price, feature_lines}
use the_eye.Text.Lines.{is_one_line, join_lines, split_lines-join_lines}

-- A line of its own, not blank, with no white space around it.
abbrev pub is_feature : String → Bool
is_feature l = is_one_line l && not (l == "") && trim l == l

abbrev pub are_features : Option (List String) → Bool
are_features none = true
are_features (some ls) = all is_feature ls

-- A text that is there and not empty.
abbrev pub filled : Option String → Option String
filled none = none
filled (some s) = if s == "" then none else some s

-- A list that is there and not empty.
abbrev pub kept : Option (List String) → Option (List String)
kept none = none
kept (some []) = none
kept (some (l ∷ ls)) = some (l ∷ ls)

given-or_else : (t : Option String) → given (or_else t "") ≡ filled t
given-or_else none = refl
given-or_else (some s) = refl

abbrev pub numbered : Option ℕ → Option Json
numbered none = none
numbered (some n) = some (hundredths n)

kept_lines :
    (ls : List String) → all is_feature ls ≡ true → filter (λ l. not (l == "")) (map trim ls) ≡ ls
kept_lines [] h = refl
kept_lines (l ∷ ls) h = ground (arith, eq_iff (trim l) l, kept_lines ls)

one_lines : (ls : List String) → all is_feature ls ≡ true → all is_one_line ls ≡ true
one_lines [] h = refl
one_lines (l ∷ ls) h = ground (arith, one_lines ls)

join_lines_ne :
    (l : String) (ls : List String) → not (l == "") ≡ true → (join_lines (l ∷ ls) == "") ≡ false
unfolding join_lines
join_lines_ne l [] h = ground arith
join_lines_ne [] (m ∷ ls) h = ground arith
join_lines_ne (c ∷ l) (m ∷ ls) h = rw cons-append (cons_not_nil c _)

feature_lines-join_lines :
    (l : String) (ls : List String)
    → all is_feature (l ∷ ls) ≡ true
    → feature_lines (join_lines (l ∷ ls)) ≡ l ∷ ls
unfolding feature_lines
feature_lines-join_lines l ls h =
    rw (split_lines-join_lines l ls (one_lines (l ∷ ls) h)) (kept_lines (l ∷ ls) h)

first_not_nil :
    (l : String) (ls : List String) → all is_feature (l ∷ ls) ≡ true → not (l == "") ≡ true
first_not_nil l ls h = ground arith

-- The features as the form takes them and sends them.
abbrev sent_features : String → Option (List String)
sent_features text = if text == "" then none else some (feature_lines text)

sent_features-join_lines :
    (fs : Option (List String))
    → are_features fs ≡ true
    → sent_features (join_lines (or_else fs [])) ≡ kept fs
unfolding join_lines
sent_features-join_lines none h = refl
sent_features-join_lines (some []) h = refl
sent_features-join_lines (some (l ∷ ls)) h =
    rw (join_lines_ne l ls (first_not_nil l ls h)) (ap some (feature_lines-join_lines l ls h))

module _ (numbers : Numbers) where
  price-number_text : (n : Option ℕ) → price numbers (number_text n) ≡ numbered n
  price-number_text none = refl
  price-number_text (some n) =
      rw (price_text_not_nil n) (rw (numbers.parse_float-price_text n) refl)

  -- Where the features of a plan, if any, are lines that are neither blank nor surrounded by white
  -- space, saving the dialog of the plan without a change sends every field of the form as the plan
  -- has it, the prices to the cent, except that an empty text and an empty list of features are not
  -- sent.
  pub payload-form_of :
      (p : StaffPlan)
      → are_features p.features ≡ true
      → payload numbers (form_of (some p)) ≡ record {
        name = p.name;
        slug = p.slug;
        description = filled p.description;
        price_monthly = numbered p.price_monthly;
        price_annual = numbered p.price_annual;
        paddle_price_id_monthly = filled p.paddle_price_id_monthly;
        paddle_price_id_annual = filled p.paddle_price_id_annual;
        features = kept p.features;
        sort_order = p.sort_order;
        is_public = p.is_public;
      }
  unfolding payload form_of
  payload-form_of p featured = rw (given-or_else p.description) (
      rw (given-or_else p.paddle_price_id_monthly) (
        rw (given-or_else p.paddle_price_id_annual) (
          rw (price-number_text p.price_monthly) (
            rw (price-number_text p.price_annual) (
              rw (sent_features-join_lines p.features featured)
                (rw (numbers.parse_int-decimal p.sort_order) refl))))))
