-- ===== src/Settings/Team.antt =====
-- The team's panel, which an admin sees (frontend/src/app/settings/page.tsx, TeamPanel).
pub mod Laws
use the_eye.Base.{Bool, true, false, Option, none, some, List, String, ◌==◌, if◌then◌else◌}
use the_eye.Browser.{Browser}
use the_eye.Http.{Fetched, Failure, api_message}
use the_eye.Api.Users.{UserRead, list_users, create_user, deactivate_user, reset_user_password}
use the_eye.Api.Call.{user}
use the_eye.Page.{Handlers, load, attempt, attempt_and_load}

pub record TeamPanel : Type 0 where
  pub users : List UserRead
  pub load_err : Option String
  pub show_form : Bool
  pub username : String
  pub password : String
  pub role : String
  pub form_err : Option String
  pub saving : Bool
  pub deactivating : Option String
  pub resetting_pw : Option String
  pub new_pw : String
  pub reset_target : Option String

module _ (env : Option String) where
  pub load_team : Fetched (List UserRead) → TeamPanel → Browser → TeamPanel × Browser
  load_team =
      load env (user list_users) (λ us p. record p { users = us })
        λ f p. record p { load_err = some (api_message "Failed to load team" f) }

  -- The list is loaded again before the form is ready.
  unfoldable pub create_member :
      Fetched UserRead → Fetched (List UserRead) → TeamPanel → Browser → TeamPanel × Browser
  create_member reply list panel =
      attempt_and_load env (user (create_user panel.username panel.password panel.role))
        (record {
          done = λ p. record p { username = ""; password = ""; role = "admin"; show_form = false };
          failed = λ f p. record p { form_err = some (api_message "Failed to create user" f) };
          finally = λ p. record p { saving = false };
        })
        reply (load_team list) (record panel { form_err = none; saving = true })

  -- There is no `catch`: an error leaves the handler as a rejection that nobody handles.
  unfoldable pub remove_member :
      String
      → Fetched UserRead
      → Fetched (List UserRead)
      → TeamPanel
      → Browser
      → TeamPanel × Browser
  remove_member id reply list panel =
      attempt_and_load env (user (deactivate_user id))
        (record {
          done = λ p. p;
          failed = λ f p. p;
          finally = λ p. record p { deactivating = none };
        })
        reply (load_team list) (record panel { deactivating = some id })

  unfoldable pub reset_member :
      String → Fetched UserRead → TeamPanel → Browser → TeamPanel × Browser
  reset_member id reply panel b =
      if panel.new_pw == ""
      then (panel, b)
      else attempt env (user (reset_user_password id panel.new_pw))
          (record {
            done = λ p. record p { reset_target = none; new_pw = "" };
            failed = λ f p. p;
            finally = λ p. record p { resetting_pw = none };
          })
          reply (record panel { resetting_pw = some id }) b

-- The button that opens the field of a new password, or closes it.
unfoldable pub toggle_reset : String → TeamPanel → TeamPanel
toggle_reset id p = record p {
  reset_target = elim p.reset_target [
    | none ↦ some id
    | some t ↦ if t == id then none else some id
  ];
  new_pw = "";
}
