-- ===== src/Staff/ClientUsers.antt =====
-- The users of all clients (staff-portal/src/app/users/page.tsx).
use the_eye.Base.{◌&&◌, ◌||◌, Option, none, some, List, String, ◌==◌, filter, or_else}
use the_eye.Base.Keyed.{replace_id}
use the_eye.Text.{text_includes}
use the_eye.Browser.{Browser}
use the_eye.Http.{Fetched, api_message}
use the_eye.Staff.Api.Access.{UserWithTenant, list_all_users, reset_client_user_password}
use the_eye.Staff.Api.Call.{access}
use the_eye.Staff.Page.{staff_load, staff_take}
use the_eye.Staff.Tenant.{user_id, client_user_call}

-- The answer to a reset: `{ temp_password }`.
pub record TempPassword : Type 0 where
  pub temp_password : String

-- The password is shown with the name of its user.
pub record ClientUsersPage : Type 0 where
  pub users : List UserWithTenant
  pub search : String
  pub role_filter : String
  pub error : Option String
  pub acting : Option String
  pub temp_password : Option (String × String)

module _ (env : Option String) where
  unfoldable pub load_users :
      Fetched (List UserWithTenant) → ClientUsersPage → Browser → ClientUsersPage × Browser
  load_users =
      staff_load env (access list_all_users) (λ us p. record p { users = us })
        λ f p. record p { error = some (api_message "Failed to load users" f) }

  unfoldable pub toggle_user :
      UserWithTenant
      → Fetched UserWithTenant
      → ClientUsersPage
      → Browser
      → ClientUsersPage × Browser
  toggle_user u reply page =
      staff_take env (access (client_user_call u))
        (record {
          taken = λ updated p. record p { users = replace_id user_id updated p.users };
          failed = λ f p. record p { error = some (api_message "Action failed" f) };
          finally = λ p. record p { acting = none };
        })
        reply (record page { acting = some u.id })

  unfoldable pub reset_password :
      UserWithTenant → Fetched TempPassword → ClientUsersPage → Browser → ClientUsersPage × Browser
  reset_password u reply page =
      staff_take env (access (reset_client_user_password u.id))
        (record {
          taken = λ t p. record p { temp_password = some (u.username, t.temp_password) };
          failed = λ f p. record p { error = some (api_message "Reset failed" f) };
          finally = λ p. record p { acting = none };
        })
        reply (record page { acting = some u.id })

-- Lower case is by the tables of Unicode.
unfoldable pub filtered_users : (String → String) → ClientUsersPage → List UserWithTenant
filtered_users lower p =
    filter
      (λ u.
        (text_includes (lower u.username) (lower p.search)
          || text_includes (lower (or_else u.tenant_name "")) (lower p.search))
        && (p.role_filter == "all" || u.role == p.role_filter))
      p.users
