-- ===== src/Staff/Api/Access.antt =====
-- Signing in and out, staff admins, the clients' users, and the clients' API keys.
use the_eye.Base.{Bool, Option, [], ◌∷◌, String, ◌⧺◌}
use the_eye.Json.{str}
use the_eye.Http.{Endpoint, get_call, bare_call, body_call}

pub record StaffAdmin : Type 0 where
  pub id : String
  pub username : String
  pub is_active : Bool
  pub created_at : String

pub record UserWithTenant : Type 0 where
  pub id : String
  pub username : String
  pub role : String
  pub is_active : Bool
  pub created_at : String
  pub tenant_id : Option String
  pub tenant_name : Option String

pub record StaffApiKey : Type 0 where
  pub id : String
  pub tenant_id : String
  pub tenant_name : String
  pub name : String
  pub key_prefix : String
  pub is_active : Bool
  pub last_used_at : Option String
  pub expires_at : Option String
  pub created_at : String
  pub created_by_username : Option String

pub data AccessCall : Type 0 where
  login : (username password : String) → AccessCall
  logout list_staff_admins list_all_users list_all_api_keys : AccessCall
  create_staff_admin : (username password : String) → AccessCall
  suspend_staff_admin activate_staff_admin delete_staff_admin : (id : String) → AccessCall
  suspend_client_user activate_client_user reset_client_user_password : (id : String) → AccessCall
  revoke_api_key : (id : String) → AccessCall

unfoldable pub access_endpoint : AccessCall → Endpoint
access_endpoint (login username password) =
    body_call "POST" "/v1/auth/login" (("username", str username) ∷ ("password", str password) ∷ [])
access_endpoint logout = bare_call "POST" "/v1/auth/logout"
access_endpoint list_staff_admins = get_call "/v1/staff/admins" []
access_endpoint list_all_users = get_call "/v1/staff/users" []
access_endpoint list_all_api_keys = get_call "/v1/staff/api-keys" []
access_endpoint (create_staff_admin username password) =
    body_call "POST" "/v1/staff/admins"
      (("username", str username) ∷ ("password", str password) ∷ [])
access_endpoint (suspend_staff_admin id) = bare_call "POST" ("/v1/staff/admins/" ⧺ id ⧺ "/suspend")
access_endpoint (activate_staff_admin id) =
    bare_call "POST" ("/v1/staff/admins/" ⧺ id ⧺ "/activate")
access_endpoint (delete_staff_admin id) = bare_call "DELETE" ("/v1/staff/admins/" ⧺ id)
access_endpoint (suspend_client_user id) = bare_call "POST" ("/v1/staff/users/" ⧺ id ⧺ "/suspend")
access_endpoint (activate_client_user id) = bare_call "POST" ("/v1/staff/users/" ⧺ id ⧺ "/activate")
access_endpoint (reset_client_user_password id) =
    bare_call "POST" ("/v1/staff/users/" ⧺ id ⧺ "/reset-password")
access_endpoint (revoke_api_key id) = bare_call "DELETE" ("/v1/staff/api-keys/" ⧺ id)
