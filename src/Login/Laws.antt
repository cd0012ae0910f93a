-- ===== src/Login/Laws.antt =====
-- When a login succeeds, and what a failed one leaves.
use the_eye.Base.{true, false, Option, none, some, String, ◌∷◌, ◌≡◌, refl, ◌∙◌}
use the_eye.Json.{Json}
use the_eye.Json.Codec.{Codec}
use the_eye.Browser.{Browser, send}
use the_eye.Session.{Session, session_json, get_session, set_session}
use the_eye.Session.Laws.{get_session-set_session, get_session-navigate}
use the_eye.Client.{react}
use the_eye.Http.{Fetched, value, raised, Failure, outcome}
use the_eye.Api.Auth.{login}
use the_eye.Api.Call.{Call, auth, asked}
use the_eye.Api.Call.Laws.{perform_of_value, perform_of_outcome}
use the_eye.Login.{LoginForm, login_error, handle_submit}

-- The call of the login form.
abbrev pub login_call : LoginForm → Call
login_call form = auth (login form.email form.password)

module _ (c : Codec) (env : Option String) (reply : Fetched Json) (form : LoginForm)
    (b : Browser) where
  -- If the server answers with a session, in a window that session is stored, the browser goes to
  -- the overview, and the form shows no error and is no longer loading.
  handle_submit_success :
      (s : Session)
      → b.window ≡ true
      → outcome reply ≡ value (session_json s)
      → (get_session c (handle_submit c env reply form b).1 ≡ some (session_json s))
        × ((handle_submit c env reply form b).1.visited ≡ "/overview" ∷ b.visited)
        × ((handle_submit c env reply form b).0 ≡ record form { error = none; loading = false })
  unfolding handle_submit send
  handle_submit_success s w h = rw (perform_of_value env (login_call form) reply b h) (
    get_session-navigate c "/overview"
          (set_session c (session_json s) (asked env (login_call form) b))
        ∙ get_session-set_session c s (asked env (login_call form) b) w,
    refl,
    refl,
  )

  -- If the call fails, the form shows the error's message and is no longer loading, and the browser
  -- is as the answer leaves it: expelled on 401, and otherwise with the request sent only.
  pub handle_submit_failure :
      (f : Failure)
      → outcome reply ≡ raised f
      → ((handle_submit c env reply form b).0
          ≡ record form { error = some (login_error env f); loading = false })
        × ((handle_submit c env reply form b).1 ≡ react reply (asked env (login_call form) b))
  unfolding handle_submit
  handle_submit_failure f h = rw (perform_of_outcome env (login_call form) reply b h) (refl, refl)
