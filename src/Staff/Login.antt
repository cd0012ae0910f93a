-- ===== src/Staff/Login.antt =====
-- The login page of the staff portal (staff-portal/src/app/login/page.tsx).
pub mod Laws
use the_eye.Base.{Bool, true, false, not, Option, none, some, String, ◌⧺◌, ◌==◌, eqb, if◌then◌else◌}
use the_eye.Json.{Json, null}
use the_eye.Json.Codec.{Codec}
use the_eye.Browser.{Browser, get_item, navigate}
use the_eye.Http.{
  Fetched, Outcome, value, no_content, raised, Failure, api_error, other_error, api_base,
}
use the_eye.Query.Decimal.{decimal}
use the_eye.Staff.Session.{is_super_admin, is_staff, set_staff_session}
use the_eye.Staff.Api.Access.{login}
use the_eye.Staff.Api.Call.{access, staff_perform}

pub record StaffLoginForm : Type 0 where
  pub username : String
  pub password : String
  pub show_password : Bool
  pub error : Option String
  pub loading : Bool

abbrev is_light : Option String → Bool
is_light none = false
is_light (some theme) = theme == "light"

-- The effect of the first render: dark unless the stored theme is light.
pub on_staff_mount : Codec → Browser → Browser
unfolding get_item is_staff navigate
on_staff_mount c b =
    let shown = record b { dark = not (is_light (get_item "staff_theme" b)) } in
    if is_staff c shown then navigate "/dashboard" shown else shown

-- The message of the `catch` clause.
pub staff_login_error : Option String → Failure → String
unfolding decimal
staff_login_error env (api_error status m) =
    if eqb status 401 then "Invalid credentials." else "Server error (" ⧺ decimal status ⧺ ")."
staff_login_error env (other_error m) = "Could not reach server (" ⧺ api_base env ⧺ ")."

abbrev unreached : Option String → StaffLoginForm → Browser → StaffLoginForm × Browser
unreached env form b = (
  record form { error = some ("Could not reach server (" ⧺ api_base env ⧺ ")."); loading = false },
  b,
)

-- What follows the answer. `session.role` throws on `undefined` and on `null`.
settle_login :
    Codec → Option String → Outcome Json → StaffLoginForm → Browser → StaffLoginForm × Browser
unfolding set_staff_session navigate staff_login_error
settle_login c env (value null) form b = unreached env form b
settle_login c env (value session) form b =
    if is_super_admin session
    then (record form { loading = false }, navigate "/dashboard" (set_staff_session c session b))
    else (
      record form { error = some "Access denied — staff credentials required."; loading = false },
      b,
    )
settle_login c env no_content form b = unreached env form b
settle_login c env (raised f) form b =
    (record form { error = some (staff_login_error env f); loading = false }, b)

unfoldable pub handle_staff_submit :
    Codec → Option String → Fetched Json → StaffLoginForm → Browser → StaffLoginForm × Browser
unfolding settle_login
handle_staff_submit c env reply form b =
    let (result, asked) = staff_perform env (access (login form.username form.password)) reply b in
    settle_login c env result (record form { error = none; loading = true }) asked
