-- ===== src/Portals.antt =====
-- Both portals in one browser: whatever signs somebody in or out, as a sequence of events, and what
-- it comes to when only the two sessions are looked at. The handlers are those of the login pages,
-- the sidebars and the clients of frontend/src and staff-portal/src.
mod Seen
pub mod Laws
use the_eye.Base.{
  Bool, true, false, Option, none, some, List, [], ◌∷◌, String, ◌==◌, ◌≡◌, if◌then◌else◌,
}
use the_eye.Json.{Json}
use the_eye.Json.Codec.{Codec}
use the_eye.Browser.{Browser}
use the_eye.Session.{session_json, get_session}
use the_eye.Http.{Endpoint, Fetched, Outcome, value, no_content, raised, outcome, is_unauthorised}
use the_eye.Client.{request}
use the_eye.Login.{LoginForm, handle_submit}
use the_eye.Nav.{handle_logout}
use the_eye.Theme.{Theme, apply_theme}
use the_eye.Staff.Session.{staff_json, is_super_admin, get_staff_session}
use the_eye.Staff.Client.{staff_request}
use the_eye.Staff.Login.{StaffLoginForm, handle_staff_submit}
use the_eye.Staff.Nav.{handle_sign_out, toggle_theme}

-- What happens, with the server's answer to it. Any call of a portal stands for those of its pages.
pub data Event : Type 0 where
  log_in : LoginForm → Fetched Json → Event
  log_out : Fetched (Unit {0}) → Event
  call : Endpoint → Fetched Json → Event
  choose_theme : Theme → Event
  staff_log_in : StaffLoginForm → Fetched Json → Event
  staff_log_out : Fetched (Unit {0}) → Event
  staff_call : Endpoint → Fetched Json → Event
  staff_toggle : Bool → Event

module _ (c : Codec) (env : Option String) where
  unfoldable pub happen : Event → Browser → Browser
  happen (log_in form reply) b = (handle_submit c env reply form b).1
  happen (log_out reply) b = handle_logout env reply b
  happen (call e reply) b = (request env e reply b).1
  happen (choose_theme t) b = apply_theme t b
  happen (staff_log_in form reply) b = (handle_staff_submit c env reply form b).1
  happen (staff_log_out reply) b = handle_sign_out env reply b
  happen (staff_call e reply) b = (staff_request env e reply b).1
  happen (staff_toggle dark) b = (toggle_theme dark b).1

  -- The events in order.
  unfoldable pub run : List Event → Browser → Browser
  unfolding happen
  run [] b = b
  run (e ∷ es) b = run es (happen e b)

-- The specification: who is signed in to the dashboard, and who to the staff portal.
pub record Visitors : Type 0 where
  pub user : Option Json
  pub admin : Option Json

-- An answer of 401 signs out of the portal that asked.
abbrev pub unless_401 {ℓ} : {T : Type ℓ} → Fetched T → Option Json → Option Json
unless_401 reply before = if is_unauthorised reply then none else before

abbrev pub entered : Outcome Json → Option Json → Option Json
entered (value s) before = some s
entered _ before = before

-- Only a super admin is let into the staff portal.
abbrev pub admitted : Outcome Json → Option Json → Option Json
admitted (value s) before = if is_super_admin s then some s else before
admitted _ before = before

unfoldable pub visit : Event → Visitors → Visitors
visit (log_in form reply) v = record v { user = entered (outcome reply) (unless_401 reply v.user) }
visit (log_out reply) v = record v { user = none }
visit (call e reply) v = record v { user = unless_401 reply v.user }
visit (choose_theme t) v = v
visit (staff_log_in form reply) v = record v {
  admin = admitted (outcome reply) (unless_401 reply v.admin);
}
visit (staff_log_out reply) v = record v { admin = none }
visit (staff_call e reply) v = record v { admin = unless_401 reply v.admin }
visit (staff_toggle dark) v = v

unfoldable pub visits : List Event → Visitors → Visitors
unfolding visit
visits [] v = v
visits (e ∷ es) v = visits es (visit e v)

-- What the two portals read in the browser.
abbrev pub signed_in : Codec → Browser → Visitors
signed_in c b = record { user = get_session c b; admin = get_staff_session c b }

-- A server that keeps to the documented answers: a session to a login, or an error.
abbrev pub Serves : {S : Type 0} → (S → Json) → Outcome Json → Type 0
Serves {S = S} json (value v) = (s : S) × (v ≡ json s)
Serves json no_content = ⊥
Serves json (raised f) = Unit

abbrev pub IsServed : Event → Type 0
IsServed (log_in form reply) = Serves session_json (outcome reply)
IsServed (staff_log_in form reply) = Serves staff_json (outcome reply)
IsServed _ = Unit
