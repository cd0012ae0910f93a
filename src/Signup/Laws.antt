-- ===== src/Signup/Laws.antt =====
-- What submitting the sign-up form does.
use the_eye.Base.{true, false, Option, none, some, String, ◌≡◌, ◌==◌}
use the_eye.Json.{Json, str}
use the_eye.Json.Codec.{Codec}
use the_eye.Browser.{Browser}
use the_eye.Http.{Fetched, value, outcome}
use the_eye.Api.Auth.{signup}
use the_eye.Api.Call.{auth, asked}
use the_eye.Api.Call.Laws.{perform_of_value}
use the_eye.Signup.{SignupForm, handle_submit}

module _ (c : Codec) (env : Option String) (reply : Fetched Json) (form : SignupForm)
    (b : Browser) where
  -- Two passwords that differ are reported and nothing is sent.
  pub handle_submit_mismatch :
      (form.password == form.confirm_password) ≡ false
      → handle_submit c env reply form b
        ≡ (record form { error = some (str "Passwords do not match.") }, b)
  unfolding handle_submit
  handle_submit_mismatch differ = rw differ

  -- Where the two passwords agree and the server accepts, the account that the form names is
  -- asked for once, the form is finished and shows no error, and nobody is signed in by it.
  pub handle_submit_accepted :
      {v : Json}
      → (form.password == form.confirm_password) ≡ true
      → outcome reply ≡ value v
      → handle_submit c env reply form b ≡ (
        record form { error = none; loading = false; finished = true },
        asked env
            (auth (signup form.company_name form.company_slug form.admin_email form.password))
            b,
      )
  unfolding handle_submit
  handle_submit_accepted agree accepted = rw agree (
      rw (
        perform_of_value env
          (auth (signup form.company_name form.company_slug form.admin_email form.password)) reply b
          accepted))
