-- ===== src/Settings/Password/Laws.antt =====
-- When a new password is sent, and what is left of the form.
use the_eye.Base.{
  true, false, Option, none, some, String, ◌≡◌, ◌≢◌, ◌⊎◌, ◌∙◌, arith, ltb, eq_iff, inl, inr,
}
use the_eye.Text.{text_length}
use the_eye.Browser.{Browser}
use the_eye.Client.{react}
use the_eye.Http.{Fetched, value, raised, Failure, outcome, api_message}
use the_eye.Api.Account.{change_password}
use the_eye.Api.Call.{account, asked}
use the_eye.Page.Laws.{attempt_of_value, attempt_of_raised}
use the_eye.Settings.Password.{PasswordForm, mismatch, is_refused, change, submit_password}

module _ (env : Option String) (reply : Fetched (Unit {0})) (form : PasswordForm)
    (b : Browser) where
  -- A password form with a confirmation is sent only where the confirmation is the new password and
  -- the new password has twelve code units at least: otherwise form and browser stay as they are.
  submit_password_refused :
      form.confirm ≢ ""
      → (form.confirm ≢ form.new_pw) ⊎ (ltb (text_length form.new_pw) 12 ≡ true)
      → submit_password env reply form b ≡ (form, b)
  unfolding submit_password is_refused mismatch
  submit_password_refused filled (inl differs) =
      ground (arith, eq_iff form.confirm "", eq_iff form.new_pw form.confirm)
  submit_password_refused filled (inr short) =
      ground (arith, eq_iff form.confirm "", eq_iff form.new_pw form.confirm)

  submit_password_sent :
      form.confirm ≡ form.new_pw
      → ltb (text_length form.new_pw) 12 ≡ false
      → submit_password env reply form b ≡ change env reply form b
  unfolding submit_password is_refused mismatch
  submit_password_sent same long =
      ground (arith, eq_iff form.confirm "", eq_iff form.new_pw form.confirm)

  -- A new password of at least twelve code units that equals its confirmation is sent once, with
  -- the current one, and where the server accepts it the form is emptied and says so.
  pub submit_password_accepted :
      {u : Unit {0}}
      → form.confirm ≡ form.new_pw
      → ltb (text_length form.new_pw) 12 ≡ false
      → outcome reply ≡ value u
      → submit_password env reply form b ≡ (
        record {
          current = "";
          new_pw = "";
          confirm = "";
          saving = false;
          status = some (record { text = "Password changed successfully."; ok = true });
        },
        asked env (account (change_password form.current form.new_pw)) b,
      )
  unfolding change
  submit_password_accepted same long e =
      submit_password_sent same long
      ∙ attempt_of_value env (account (change_password form.current form.new_pw)) reply
          (record form { saving = true; status = none }) b _ e

  -- Where the server refuses a new password of at least twelve code units that equals its
  -- confirmation, the form keeps its texts, shows the reason and waits no longer; an answer of 401
  -- also ends the session.
  pub submit_password_failed :
      {f : Failure}
      → form.confirm ≡ form.new_pw
      → ltb (text_length form.new_pw) 12 ≡ false
      → outcome reply ≡ raised f
      → submit_password env reply form b ≡ (
        record form {
          saving = false;
          status = some (record { text = api_message "Password change failed." f; ok = false });
        },
        react reply (asked env (account (change_password form.current form.new_pw)) b),
      )
  unfolding change
  submit_password_failed same long e =
      submit_password_sent same long
      ∙ attempt_of_raised env (account (change_password form.current form.new_pw)) reply
          (record form { saving = true; status = none }) b _ e
