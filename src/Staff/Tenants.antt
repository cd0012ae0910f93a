-- ===== src/Staff/Tenants.antt =====
-- The page of all tenants (staff-portal/src/app/tenants/page.tsx).
pub mod Laws
use the_eye.Base.{
  ℕ, ◌+◌, ◌-◌, ◌/◌, Bool, true, false, not, ◌&&◌, ◌||◌, Option, none, some, List, String, ◌⧺◌, ◌==◌,
  eqb, ltb, filter, if◌then◌else◌,
}
use the_eye.Base.Keyed.{replace_id}
use the_eye.Text.{text_includes}
use the_eye.Query.Decimal.{decimal}
use the_eye.Browser.{Browser}
use the_eye.Http.{Fetched, api_message}
use the_eye.Staff.Api.Tenants.{
  TenantStats, TenantCall, list_tenants, suspend_tenant, activate_tenant,
}
use the_eye.Staff.Api.Call.{tenants}
use the_eye.Staff.Page.{staff_load, staff_take}

pub data TenantFilter : Type 0 where
  all_tenants active_tenants suspended_tenants : TenantFilter

pub record TenantsPage : Type 0 where
  pub listed : List TenantStats
  pub search : String
  pub filter_by : TenantFilter
  pub error : Option String
  pub acting : Option String

abbrev pub tenant_id : TenantStats → String
tenant_id t = t.id

-- Suspends an active tenant, activates another.
abbrev pub toggle_call : TenantStats → TenantCall
toggle_call t = if t.is_active then suspend_tenant t.id else activate_tenant t.id

module _ (env : Option String) where
  unfoldable pub load_tenants :
      Fetched (List TenantStats) → TenantsPage → Browser → TenantsPage × Browser
  load_tenants =
      staff_load env (tenants list_tenants) (λ ts p. record p { listed = ts })
        λ f p. record p { error = some (api_message "Failed to load tenants" f) }

  unfoldable pub toggle :
      TenantStats → Fetched TenantStats → TenantsPage → Browser → TenantsPage × Browser
  toggle t reply page =
      staff_take env (tenants (toggle_call t))
        (record {
          taken = λ updated p. record p { listed = replace_id tenant_id updated p.listed };
          failed = λ f p. record p { error = some (api_message "Action failed" f) };
          finally = λ p. record p { acting = none };
        })
        reply (record page { acting = some t.id })

abbrev pub matches_filter : TenantFilter → TenantStats → Bool
matches_filter all_tenants t = true
matches_filter active_tenants t = t.is_active
matches_filter suspended_tenants t = not t.is_active

-- Lower case is by the tables of Unicode.
module _ (lower : String → String) where
  abbrev pub matches_search : String → TenantStats → Bool
  matches_search search t =
      text_includes (lower t.name) (lower search) || text_includes (lower t.slug) (lower search)

  unfoldable pub filtered : TenantsPage → List TenantStats
  filtered p = filter (λ t. matches_search p.search t && matches_filter p.filter_by t) p.listed

-- Math.floor of the days since a time, in words: a time to come counts in negative days.
abbrev days_ago : ℕ → ℕ → String
days_ago now t =
    if ltb now t
    then "-" ⧺ decimal ((t - now + 86399999) / 86400000) ⧺ "d ago"
    else decimal ((now - t) / 86400000) ⧺ "d ago"

-- The day of the last event; `date` is the date in the page's wording.
unfoldable pub fmt_relative : String → ℕ → Option ℕ → String
fmt_relative date now none = "Never"
fmt_relative date now (some t) =
    let days = (now - t) / 86400000 in
    if ltb now t
    then days_ago now t
    else if eqb days 0
    then "Today"
    else if eqb days 1
    then "Yesterday"
    else if ltb days 30
    then days_ago now t
    else date
