-- ===== src/Settings.antt =====
-- The settings page of the dashboard (frontend/src/app/settings/page.tsx): what it loads, and its
-- sections.
pub mod Danger
pub mod Appearance
pub mod Strength
pub mod Password
pub mod Profile
pub mod Team
pub mod Labels
pub mod Notifications
use the_eye.Base.{Bool, false, Option, none, some, String, ◌==◌}
use the_eye.Json.{as_text, property}
use the_eye.Json.Codec.{Codec}
use the_eye.Browser.{Browser}
use the_eye.Session.{get_session}
use the_eye.Http.{Fetched}
use the_eye.Api.Monitor.{ChainSummary, get_chain_summary}
use the_eye.Api.Keys.{SubscriptionOut, get_tenant_subscription}
use the_eye.Api.Account.{TenantProfile, get_tenant_profile}
use the_eye.Api.Call.{platform, billing, account}
use the_eye.Page.{load}

pub record SettingsPage : Type 0 where
  pub sub : Option SubscriptionOut
  pub chain : Option ChainSummary
  pub profile : Option TenantProfile

-- session?.role === "admin", for the sections that only an admin sees
unfoldable pub shows_admin : Codec → Browser → Bool
shows_admin c b = elim (get_session c b) [
  | none ↦ false
  | some s ↦ elim (as_text (property "role" s)) [ none ↦ false | some r ↦ r == "admin" ]
]

module _ (env : Option String) where
  -- The three loads of the first effect, whose errors are left aside.
  unfoldable pub load_chain : Fetched ChainSummary → SettingsPage → Browser → SettingsPage × Browser
  load_chain =
      load env (platform get_chain_summary) (λ c page. record page { chain = some c })
        λ f page. page

  unfoldable pub load_subscription :
      Fetched SubscriptionOut → SettingsPage → Browser → SettingsPage × Browser
  load_subscription =
      load env (billing get_tenant_subscription) (λ s page. record page { sub = some s })
        λ f page. page

  unfoldable pub load_profile :
      Fetched TenantProfile → SettingsPage → Browser → SettingsPage × Browser
  load_profile =
      load env (account get_tenant_profile) (λ p page. record page { profile = some p })
        λ f page. page
