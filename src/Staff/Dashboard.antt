-- ===== src/Staff/Dashboard.antt =====
-- The dashboard of the staff portal (staff-portal/src/app/dashboard/page.tsx).
use the_eye.Base.{Bool, Option, none, some, List, take, String, ◌==◌, if◌then◌else◌}
use the_eye.Browser.{Browser}
use the_eye.Http.{Fetched, Outcome, value, no_content, raised, api_message}
use the_eye.Staff.Api.Tenants.{PlatformOverview, TenantStats, get_overview, list_tenants}
use the_eye.Staff.Api.Call.{tenants, staff_perform}

pub data TenantStatus : Type 0 where
  active suspended trial paid inactive : TenantStatus

-- What the subscription of an active tenant says; the empty text is no subscription.
abbrev of_subscription : Option String → TenantStatus
of_subscription none = trial
of_subscription (some s) = if s == "" then trial else if s == "active" then paid else inactive

unfoldable pub sub_status : TenantStats → TenantStatus
sub_status t = if t.is_active then of_subscription t.paddle_subscription_status else suspended

pub record DashboardPage : Type 0 where
  pub overview : Option PlatformOverview
  pub listed : List TenantStats
  pub error : Option String

abbrev unloaded : String → DashboardPage → DashboardPage
unloaded text p = record p { error = some text }

abbrev given : Outcome PlatformOverview → Option PlatformOverview
given (value o) = some o
given _ = none

-- Promise.all of the two answers: `second_first` says which rejection comes first. Where the second
-- has no content, `ts.slice` throws, after the overview was put.
unfoldable pub dashboard_came :
    Bool → Outcome PlatformOverview → Outcome (List TenantStats) → DashboardPage → DashboardPage
dashboard_came second_first (raised f) (raised g) p =
    unloaded (api_message "Failed to load data" (if second_first then g else f)) p
dashboard_came second_first (raised f) _ p = unloaded (api_message "Failed to load data" f) p
dashboard_came second_first _ (raised g) p = unloaded (api_message "Failed to load data" g) p
dashboard_came second_first o (value ts) p = record p { overview = given o; listed = take 8 ts }
dashboard_came second_first o no_content p =
    unloaded "Failed to load data" (record p { overview = given o })

unfoldable pub load_dashboard :
    Option String
    → Bool
    → Fetched PlatformOverview
    → Fetched (List TenantStats)
    → DashboardPage
    → Browser
    → DashboardPage × Browser
unfolding dashboard_came
load_dashboard env second_first overview_reply tenants_reply p b =
    let (overview, b₁) = staff_perform env (tenants get_overview) overview_reply b in
    let (listed, b₂) = staff_perform env (tenants list_tenants) tenants_reply b₁ in
    (dashboard_came second_first overview listed p, b₂)
