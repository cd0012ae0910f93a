-- ===== src/Api/Account.antt =====
-- The tenant's profile, the deletion of its account, and the password.
use the_eye.Base.{Bool, Option, List, [], ◌∷◌, String}
use the_eye.Json.{Json, str}
use the_eye.Http.{Endpoint, get_call, bare_call, body_call}

pub record TenantProfile : Type 0 where
  pub id : String
  pub name : String
  pub slug : String
  pub contact_email : Option String
  pub phone : Option String
  pub website : Option String
  pub country : Option String
  pub industry : Option String
  pub logo_url : Option String
  pub profile_description : Option String
  pub pending_deletion : Bool
  pub deletion_requested_at : Option String
  pub deletion_reason : Option String

-- The properties given to `updateTenantProfile` are those of a partial profile.
pub data AccountCall : Type 0 where
  get_billing_config get_tenant_profile : AccountCall
  update_tenant_profile : List (String × Json) → AccountCall
  request_account_deletion : (password reason : String) → AccountCall
  cancel_account_deletion : AccountCall
  change_password : (current_password new_password : String) → AccountCall

unfoldable pub account_endpoint : AccountCall → Endpoint
account_endpoint get_billing_config = get_call "/v1/billing/config" []
account_endpoint get_tenant_profile = get_call "/v1/billing/profile" []
account_endpoint (update_tenant_profile changes) = body_call "PATCH" "/v1/billing/profile" changes
account_endpoint (request_account_deletion password reason) =
    body_call "POST" "/v1/account/request-deletion"
      (("password", str password) ∷ ("reason", str reason) ∷ [])
account_endpoint cancel_account_deletion = bare_call "DELETE" "/v1/account/request-deletion"
account_endpoint (change_password current_password new_password) =
    body_call "POST" "/v1/auth/change-password"
      (("current_password", str current_password) ∷ ("new_password", str new_password) ∷ [])
