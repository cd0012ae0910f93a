-- ===== src/Settings/Password.antt =====
-- The change of one's own password (frontend/src/app/settings/page.tsx, SecuritySection).
pub mod Laws
use the_eye.Base.{
  Bool, true, false, not, ◌&&◌, ◌||◌, Option, none, some, String, ◌==◌, ltb, if◌then◌else◌,
}
use the_eye.Text.{text_length}
use the_eye.Browser.{Browser}
use the_eye.Http.{Fetched, api_message}
use the_eye.Api.Account.{change_password}
use the_eye.Api.Call.{account}
use the_eye.Page.{attempt}

-- The text of the last outcome, with whether it is a success.
pub record Status : Type 0 where
  pub text : String
  pub ok : Bool

pub record PasswordForm : Type 0 where
  pub current : String
  pub new_pw : String
  pub confirm : String
  pub saving : Bool
  pub status : Option Status

-- confirm.length > 0 && newPw !== confirm
unfoldable pub mismatch : PasswordForm → Bool
mismatch f = not (f.confirm == "") && not (f.new_pw == f.confirm)

unfoldable pub is_refused : PasswordForm → Bool
unfolding mismatch
is_refused f = mismatch f || ltb (text_length f.new_pw) 12

module _ (env : Option String) where
  pub change : Fetched (Unit {0}) → PasswordForm → Browser → PasswordForm × Browser
  change reply form =
      attempt env (account (change_password form.current form.new_pw))
        (record {
          done = λ f. record f {
            status = some (record { text = "Password changed successfully."; ok = true });
            current = "";
            new_pw = "";
            confirm = "";
          };
          failed = λ e f. record f {
            status = some (record { text = api_message "Password change failed." e; ok = false });
          };
          finally = λ f. record f { saving = false };
        })
        reply (record form { saving = true; status = none })

  pub submit_password : Fetched (Unit {0}) → PasswordForm → Browser → PasswordForm × Browser
  unfolding is_refused change
  submit_password reply form b = if is_refused form then (form, b) else change reply form b
