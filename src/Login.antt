-- ===== src/Login.antt =====
-- The login page of the dashboard (frontend/src/app/login/page.tsx).
pub mod Laws
use the_eye.Base.{Bool, true, false, Option, none, some, String, ◌⧺◌, eqb, if◌then◌else◌}
use the_eye.Json.{Json}
use the_eye.Json.Codec.{Codec}
use the_eye.Browser.{Browser, set_item, navigate}
use the_eye.Session.{session_key, set_session, is_logged_in}
use the_eye.Http.{
  Fetched, Outcome, value, no_content, raised, Failure, api_error, other_error, api_base,
}
use the_eye.Query.Decimal.{decimal}
use the_eye.Api.Auth.{login}
use the_eye.Api.Call.{auth, perform}

pub record LoginForm : Type 0 where
  pub email : String
  pub password : String
  pub show_password : Bool
  pub error : Option String
  pub loading : Bool

-- The effect of the first render.
pub on_mount : Codec → Browser → Browser
unfolding is_logged_in navigate
on_mount c b = if is_logged_in c b then navigate "/overview" b else b

-- The message of the `catch` clause.
pub login_error : Option String → Failure → String
login_error env (api_error status m) =
    if eqb status 402
    then "Your subscription is inactive. Please renew your plan to continue."
    else if eqb status 401
    then "Invalid email or password."
    else "Server error (" ⧺ decimal status ⧺ ") — check Railway logs."
login_error env (other_error m) = "Could not reach the server (" ⧺ api_base env ⧺ ")."

-- setError(null); setLoading(true)
abbrev pub begin : LoginForm → LoginForm
begin form = record form { error = none; loading = true }

-- What follows the answer. `JSON.stringify(undefined)` is `undefined`, which `setItem` stores as
-- that word.
settle : Codec → Option String → Outcome Json → LoginForm → Browser → LoginForm × Browser
unfolding set_session set_item navigate login_error
settle c env (value session) form b =
    (record form { loading = false }, navigate "/overview" (set_session c session b))
settle c env no_content form b =
    (record form { loading = false }, navigate "/overview" (set_item session_key "undefined" b))
settle c env (raised f) form b =
    (record form { error = some (login_error env f); loading = false }, b)

unfoldable pub handle_submit :
    Codec → Option String → Fetched Json → LoginForm → Browser → LoginForm × Browser
unfolding settle
handle_submit c env reply form b =
    let (result, asked) = perform env (auth (login form.email form.password)) reply b in
    settle c env result (begin form) asked
