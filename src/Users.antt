-- ===== src/Users.antt =====
-- The page on which an admin manages the users (frontend/src/app/admin/users/page.tsx).
pub mod Guard
pub mod Password
use the_eye.Base.{
  ℕ, ◌+◌, Bool, true, false, not, ◌&&◌, ◌||◌, Option, none, some, List, String, ◌==◌, ltb, leb,
  length, filter, or_else, if◌then◌else◌,
}
use the_eye.Base.Dict.{Dict, lookup, insert, remove}
use the_eye.Text.{text_length}
use the_eye.Browser.{Browser}
use the_eye.Http.{Fetched, Failure, api_message, or_text}
use the_eye.Api.Users.{
  UserRead, UserCall, list_users, create_user, deactivate_user, reactivate_user, change_user_role,
  reset_user_password,
}
use the_eye.Api.Call.{Call, user}
use the_eye.Page.{Handlers, attempt, attempt_then_load, load}

pub record UsersPage : Type 0 where
  pub users : List UserRead
  pub error : Option String
  pub username : String
  pub password : String
  pub role : String
  pub creating : Bool
  pub changing_role_id : Option String
  pub pending_role : Dict String
  pub saving_role_id : Option String
  pub resetting_id : Option String
  pub reset_passwords : Dict String
  pub confirm_block_id : Option String
  pub loading_id : Option String

abbrev pub is_active_admin : UserRead → Bool
is_active_admin u = u.role == "admin" && u.is_active

abbrev pub active_admins : List UserRead → List UserRead
active_admins users = filter is_active_admin users

abbrev pub is_last_admin : List UserRead → UserRead → Bool
is_last_admin users u = is_active_admin u && leb (length (active_admins users)) 1

abbrev pub is_text : Option String → String → Bool
is_text none s = false
is_text (some t) s = t == s

-- Whether the row of a user offers the button that blocks it and the button is enabled: the row is
-- another user's, who is active and asked about, no call for it runs, and it is not the last admin.
unfoldable pub can_block : Option String → UsersPage → UserRead → Bool
can_block my_username page u =
    not (is_text my_username u.username)
    && u.is_active
    && is_text page.confirm_block_id u.id
    && not (
        is_text page.loading_id u.id
        || is_text page.saving_role_id u.id
        || is_last_admin page.users u)

module _ (env : Option String) where
  pub refresh : Fetched (List UserRead) → UsersPage → Browser → UsersPage × Browser
  refresh =
      load env (user list_users) (λ users page. record page { users = users })
        λ f page. record page { error = some (api_message "Failed to load users" f) }

  pub handle_create :
      Fetched UserRead → Fetched (List UserRead) → UsersPage → Browser → UsersPage × Browser
  handle_create reply list page =
      attempt_then_load env (user (create_user page.username page.password page.role))
        (record {
          done = λ p. record p { username = ""; password = "" };
          failed = λ f p. record p { error = some (api_message "Failed to create user" f) };
          finally = λ p. record p { creating = false };
        })
        reply (refresh list) (record page { creating = true; error = none })

  save_role :
      String
      → String
      → Fetched UserRead
      → Fetched (List UserRead)
      → UsersPage
      → Browser
      → UsersPage × Browser
  save_role id new_role reply list page =
      attempt_then_load env (user (change_user_role id new_role))
        (record {
          done = λ p. record p { changing_role_id = none };
          failed = λ f p. record p { error = some (api_message "Failed to change role" f) };
          finally = λ p. record p { saving_role_id = none };
        })
        reply (refresh list) (record page { saving_role_id = some id; error = none })

  pub handle_role_save :
      String
      → Fetched UserRead
      → Fetched (List UserRead)
      → UsersPage
      → Browser
      → UsersPage × Browser
  unfolding save_role
  handle_role_save id reply list page b =
      let new_role = or_else (lookup id page.pending_role) "" in
      if new_role == "" then (page, b) else save_role id new_role reply list page b

  pub handle_block :
      String
      → Fetched UserRead
      → Fetched (List UserRead)
      → UsersPage
      → Browser
      → UsersPage × Browser
  handle_block id reply list page =
      attempt_then_load env (user (deactivate_user id))
        (record {
          done = λ p. record p { confirm_block_id = none };
          failed = λ f p. record p { error = some (api_message "Failed to block user" f) };
          finally = λ p. record p { loading_id = none };
        })
        reply (refresh list) (record page { loading_id = some id; error = none })

  pub handle_unblock :
      String
      → Fetched UserRead
      → Fetched (List UserRead)
      → UsersPage
      → Browser
      → UsersPage × Browser
  handle_unblock id reply list page =
      attempt_then_load env (user (reactivate_user id))
        (record {
          done = λ p. p;
          failed = λ f p. record p { error = some (api_message "Failed to unblock user" f) };
          finally = λ p. record p { loading_id = none };
        })
        reply (refresh list) (record page { loading_id = some id; error = none })

  reset_password : String → String → Fetched UserRead → UsersPage → Browser → UsersPage × Browser
  reset_password id pw reply page =
      attempt env (user (reset_user_password id pw))
        (record {
          done =
              λ p. record p { resetting_id = none; reset_passwords = remove id p.reset_passwords };
          failed = λ f p. record p { error = some (api_message "Failed to reset password" f) };
          finally = λ p. record p { loading_id = none };
        })
        reply (record page { loading_id = some id; error = none })

  pub handle_reset_password : String → Fetched UserRead → UsersPage → Browser → UsersPage × Browser
  unfolding reset_password
  handle_reset_password id reply page b =
      let pw = or_else (lookup id page.reset_passwords) "" in
      if ltb (text_length pw) 12 then (page, b) else reset_password id pw reply page b
