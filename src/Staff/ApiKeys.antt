-- ===== src/Staff/ApiKeys.antt =====
-- The API keys of all clients (staff-portal/src/app/api-keys/page.tsx).
pub mod Laws
use the_eye.Base.{ℕ, ◌-◌, Bool, ◌||◌, Option, none, some, List, map, String, filter, length}
use the_eye.Text.{text_includes}
use the_eye.Browser.{Browser}
use the_eye.Http.{Fetched, api_message}
use the_eye.Staff.Api.Access.{StaffApiKey, list_all_api_keys, revoke_api_key}
use the_eye.Staff.Api.Call.{access}
use the_eye.Staff.Page.{staff_load, staff_attempt}
use the_eye.Staff.Tenant.{revoke_in}

pub record ApiKeysPage : Type 0 where
  pub keys : List StaffApiKey
  pub search : String
  pub error : Option String
  pub revoking : Option String
  pub confirm_revoke : Option StaffApiKey

module _ (env : Option String) where
  unfoldable pub load_keys :
      Fetched (List StaffApiKey) → ApiKeysPage → Browser → ApiKeysPage × Browser
  load_keys =
      staff_load env (access list_all_api_keys) (λ ks p. record p { keys = ks })
        λ f p. record p { error = some (api_message "Failed to load API keys" f) }

  unfoldable pub revoke_one :
      StaffApiKey → Fetched (Unit {0}) → ApiKeysPage → Browser → ApiKeysPage × Browser
  revoke_one k reply page =
      staff_attempt env (access (revoke_api_key k.id))
        (record {
          done = λ p. record p { keys = map (revoke_in k.id) p.keys };
          failed = λ f p. record p { error = some (api_message "Revoke failed" f) };
          finally = λ p. record p { revoking = none; confirm_revoke = none };
        })
        reply (record page { revoking = some k.id })

-- Lower case is by the tables of Unicode.
unfoldable pub filtered_keys : (String → String) → ApiKeysPage → List StaffApiKey
filtered_keys lower p =
    filter
      (λ k.
        text_includes (lower k.name) (lower p.search)
        || text_includes (lower k.tenant_name) (lower p.search)
        || text_includes (lower k.key_prefix) (lower p.search))
      p.keys

unfoldable pub active_count : List StaffApiKey → ℕ
active_count ks = length (filter (λ k. k.is_active) ks)

unfoldable pub revoked_count : List StaffApiKey → ℕ
unfolding active_count
revoked_count ks = length ks - active_count ks
