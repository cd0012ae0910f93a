-- ===== src/Staff/Subscriptions.antt =====
-- The subscriptions of the clients (staff-portal/src/app/subscriptions/page.tsx).
use the_eye.Base.{
  Bool, true, false, ◌&&◌, ◌||◌, Option, none, some, List, String, ◌==◌, ◌≡◌, refl, sym, ◌∙◌, arith,
  eq_iff, ◌≢◌, filter, or_else,
}
use the_eye.Text.{text_includes}
use the_eye.Browser.{Browser}
use the_eye.Http.{Fetched, api_message}
use the_eye.Staff.Api.Tenants.{TenantStats, list_tenants}
use the_eye.Staff.Api.Call.{tenants}
use the_eye.Staff.Page.{staff_load}

pub data StatusFilter : Type 0 where
  any_status active trial past_due : StatusFilter

pub record SubscriptionsPage : Type 0 where
  pub listed : List TenantStats
  pub filter_by : StatusFilter
  pub search : String
  pub error : Option String

unfoldable pub load_subscriptions :
    Option String
    → Fetched (List TenantStats)
    → SubscriptionsPage
    → Browser
    → SubscriptionsPage × Browser
load_subscriptions env =
    staff_load env (tenants list_tenants) (λ ts p. record p { listed = ts })
      λ f p. record p { error = some (api_message "Failed to load subscriptions" f) }

-- !t.paddle_subscription_status
abbrev pub has_no_status : Option String → Bool
has_no_status none = true
has_no_status (some s) = s == ""

abbrev status_is : StatusFilter → Option String → Bool
status_is any_status o = true
status_is active o = or_else o "trial" == "active"
status_is trial o = has_no_status o
status_is past_due o = or_else o "trial" == "past_due"

unfoldable pub matches_status : StatusFilter → TenantStats → Bool
matches_status f t = status_is f t.paddle_subscription_status

-- Lower case is by the tables of Unicode.
module _ (lower : String → String) where
  abbrev pub matches_text : String → TenantStats → Bool
  matches_text search t =
      text_includes (lower t.name) (lower search) || text_includes (lower t.slug) (lower search)

  unfoldable pub filtered : SubscriptionsPage → List TenantStats
  unfolding matches_status
  filtered p = filter (λ t. matches_status p.filter_by t && matches_text p.search t) p.listed

not_both : (s t u : String) → (t == u) ≡ false → (s == t) ≡ true → (s == u) ≢ true
not_both s t u differ h k =
    let same : t ≡ u = sym ((eq_iff s t).0 h) ∙ (eq_iff s u).0 k in
    ground (arith, (eq_iff t u).1 same)

status_is_once :
    (f g : StatusFilter) (o : Option String)
    → f ≢ any_status
    → g ≢ any_status
    → status_is f o ≡ true
    → status_is g o ≡ true
    → f ≡ g
status_is_once any_status g o nf ng hf hg = absurd (nf refl)
status_is_once f any_status o nf ng hf hg = absurd (ng refl)
status_is_once active active o nf ng hf hg = refl
status_is_once trial trial o nf ng hf hg = refl
status_is_once past_due past_due o nf ng hf hg = refl
status_is_once active trial none nf ng hf hg = ground arith
status_is_once active trial (some s) nf ng hf hg = absurd (not_both s "active" "" refl hf hg)
status_is_once active past_due o nf ng hf hg =
    absurd (not_both (or_else o "trial") "active" "past_due" refl hf hg)
status_is_once trial active none nf ng hf hg = ground arith
status_is_once trial active (some s) nf ng hf hg = absurd (not_both s "" "active" refl hf hg)
status_is_once trial past_due none nf ng hf hg = ground arith
status_is_once trial past_due (some s) nf ng hf hg = absurd (not_both s "" "past_due" refl hf hg)
status_is_once past_due active o nf ng hf hg =
    absurd (not_both (or_else o "trial") "past_due" "active" refl hf hg)
status_is_once past_due trial none nf ng hf hg = ground arith
status_is_once past_due trial (some s) nf ng hf hg = absurd (not_both s "past_due" "" refl hf hg)

-- No tenant is shown under two of the three statuses that the page can ask for.
matches_status_once :
    (f g : StatusFilter) (t : TenantStats)
    → f ≢ any_status
    → g ≢ any_status
    → matches_status f t ≡ true
    → matches_status g t ≡ true
    → f ≡ g
unfolding matches_status
matches_status_once f g t = status_is_once f g t.paddle_subscription_status
