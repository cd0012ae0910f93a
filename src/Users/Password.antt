-- ===== src/Users/Password.antt =====
-- Resetting a password, and saving a role that was not chosen.
use the_eye.Base.{true, false, Option, none, some, String, ◌≡◌, refl, ltb, or_else}
use the_eye.Base.Dict.{lookup, remove}
use the_eye.Text.{text_length}
use the_eye.Browser.{Browser}
use the_eye.Http.{Fetched, value, outcome}
use the_eye.Api.Users.{UserRead, reset_user_password}
use the_eye.Api.Call.{user, asked}
use the_eye.Page.Laws.{attempt_of_value}
use the_eye.Users.{UsersPage, handle_reset_password, reset_password}

reset_password_of_value :
    (env : Option String) (id pw : String) (reply : Fetched UserRead) (page : UsersPage)
    (b : Browser) {u : UserRead}
    → outcome reply ≡ value u
    → reset_password env id pw reply page b ≡ (
      record page {
        resetting_id = none;
        reset_passwords = remove id page.reset_passwords;
        loading_id = none;
        error = none;
      },
      asked env (user (reset_user_password id pw)) b,
    )
unfolding reset_password
reset_password_of_value env id pw reply page b accepted =
    attempt_of_value env (user (reset_user_password id pw)) reply
      (record page { loading_id = some id; error = none }) b _ accepted

module _ (env : Option String) (id : String) (reply : Fetched UserRead) (page : UsersPage)
    (b : Browser) where
  -- A new password of fewer than twelve code units is not sent: page and browser stay as they are.
  pub handle_reset_password_short :
      ltb (text_length (or_else (lookup id page.reset_passwords) "")) 12 ≡ true
      → handle_reset_password env id reply page b ≡ (page, b)
  unfolding handle_reset_password
  handle_reset_password_short h = rw h

  -- A new password of at least twelve code units is sent once, for this user; if the server
  -- accepts it, the field of the user is closed and its text removed, no error is shown, and
  -- nothing is loading.
  pub handle_reset_password_lem :
      {u : UserRead}
      → ltb (text_length (or_else (lookup id page.reset_passwords) "")) 12 ≡ false
      → outcome reply ≡ value u
      → ((handle_reset_password env id reply page b).1
          ≡ asked env
              (user (reset_user_password id (or_else (lookup id page.reset_passwords) "")))
              b)
        × ((handle_reset_password env id reply page b).0 ≡ record page {
          resetting_id = none;
          reset_passwords = remove id page.reset_passwords;
          loading_id = none;
          error = none;
        })
  unfolding handle_reset_password
  handle_reset_password_lem long accepted =
      let pw = or_else (lookup id page.reset_passwords) "" in
      rw long (rw (reset_password_of_value env id pw reply page b accepted) (refl, refl))
