-- ===== src/Signup.antt =====
-- The sign-up page (frontend/src/app/signup/page.tsx), with the identifier made from the company's
-- name. `toLowerCase` follows the Unicode tables, and is a parameter; so is `JSON.parse`.
mod Dashes
pub mod Slug
pub mod Laws
use Dashes.{dashes, strip_leading, strip_trailing}
use the_eye.Base.{
  Bool, true, false, not, Option, none, some, List, [], ◌∷◌, String, ◌==◌, or_else, if◌then◌else◌,
}
use the_eye.Json.{Json, null, str, property}
use the_eye.Json.Codec.{Codec}
use the_eye.Browser.{Browser, navigate}
use the_eye.Session.{is_logged_in}
use the_eye.Http.{Fetched, Outcome, value, no_content, raised, Failure, api_error, other_error}
use the_eye.Api.Auth.{signup}
use the_eye.Api.Call.{auth, perform}

pub record SignupForm : Type 0 where
  pub company_name : String
  pub company_slug : String
  pub admin_email : String
  pub password : String
  pub confirm_password : String
  pub show_password : Bool
  pub error : Option Json
  pub loading : Bool
  pub finished : Bool

-- The effect of the first render.
pub on_signup_mount : Codec → Browser → Browser
unfolding is_logged_in navigate
on_signup_mount c b = if is_logged_in c b then navigate "/overview" b else b

-- val.toLowerCase().replace(/[^a-z0-9]+/g, "-").replace(/^-|-$/g, "")
pub slug : (String → String) → String → String
unfolding dashes strip_leading strip_trailing
slug lower name = strip_trailing (strip_leading (dashes false (lower name)))

pub handle_company_name_change : (String → String) → String → SignupForm → SignupForm
unfolding slug
handle_company_name_change lower name form = record form {
  company_name = name;
  company_slug = slug lower name;
}

-- body?.detail ?? err.message, with the message where it does not parse
abbrev not_nullish : Option Json → String → Json
not_nullish none m = str m
not_nullish (some null) m = str m
not_nullish (some v) m = v

abbrev detail : Codec → String → Json
detail c m = elim (c.parse m) [ none ↦ str m | some body ↦ not_nullish (property "detail" body) m ]

abbrev signup_error : Codec → Failure → Json
signup_error c (api_error status m) = detail c m
signup_error c (other_error m) = str "Something went wrong. Please try again."

settled : Codec → Outcome Json → SignupForm → SignupForm
unfolding property
settled c (raised f) form = record form { error = some (signup_error c f); loading = false }
settled c _ form = record form { finished = true; loading = false }

-- With `finished` the page goes to /login?signup=true after 2.5 seconds.
pub handle_submit :
    Codec → Option String → Fetched Json → SignupForm → Browser → SignupForm × Browser
unfolding settled
handle_submit c env reply form b =
    let (result, after) =
      perform env (auth (signup form.company_name form.company_slug form.admin_email form.password))
        reply b in
    if not (form.password == form.confirm_password)
    then (record form { error = some (str "Passwords do not match.") }, b)
    else (settled c result (record form { error = none; loading = true }), after)
