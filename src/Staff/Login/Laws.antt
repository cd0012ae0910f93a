-- ===== src/Staff/Login/Laws.antt =====
-- Whom the login page of the staff portal lets in.
use the_eye.Base.{true, false, Option, none, some, String, ◌∷◌, ◌≡◌, ◌==◌, refl, ◌∙◌}
use the_eye.Json.{Json, property}
use the_eye.Json.Codec.{Codec}
use the_eye.Browser.{Browser, send}
use the_eye.Http.{Fetched, value, outcome}
use the_eye.Staff.Session.{StaffSession, staff_json, is_staff, set_staff_session}
use the_eye.Staff.Session.Laws.{is_staff-set_staff_session, is_staff-navigate}
use the_eye.Staff.Client.Laws.{staff_request_of_value}
use the_eye.Staff.Api.Access.{login}
use the_eye.Staff.Api.Call.{access, staff_asked, staff_endpoint, staff_perform}
use the_eye.Staff.Login.{StaffLoginForm, handle_staff_submit}

module _ (c : Codec) (env : Option String) (reply : Fetched Json) (form : StaffLoginForm)
    (b : Browser) (s : StaffSession) (accepted : outcome reply ≡ value (staff_json s)) where
  -- If the server answers with the session of a super admin, in a window the admin is signed in
  -- and taken to the dashboard, and the form shows no error and is no longer loading.
  handle_staff_submit_admin :
      b.window ≡ true
      → (s.role == "super_admin") ≡ true
      → (is_staff c (handle_staff_submit c env reply form b).1 ≡ true)
        × ((handle_staff_submit c env reply form b).1.visited ≡ "/dashboard" ∷ b.visited)
        × ((handle_staff_submit c env reply form b).0
            ≡ record form { error = none; loading = false })
  unfolding handle_staff_submit staff_perform property send
  handle_staff_submit_admin w admin =
      rw
        (staff_request_of_value env (staff_endpoint (access (login form.username form.password)))
          reply b accepted)
        (rw admin (
          let call = access (login form.username form.password) in
          (
            is_staff-navigate c "/dashboard"
                  (set_staff_session c (staff_json s) (staff_asked env call b))
                ∙ is_staff-set_staff_session c s (staff_asked env call b) w
                ∙ admin,
            refl,
            refl,
          )))

  -- If the server answers with a session of another role, access is denied: nothing is stored,
  -- the page stays, and the browser has only sent the request.
  pub handle_staff_submit_other :
      (s.role == "super_admin") ≡ false
      → handle_staff_submit c env reply form b ≡ (
        record form { error = some "Access denied — staff credentials required."; loading = false },
        staff_asked env (access (login form.username form.password)) b,
      )
  unfolding handle_staff_submit staff_perform property
  handle_staff_submit_other other =
      rw
        (staff_request_of_value env (staff_endpoint (access (login form.username form.password)))
          reply b accepted)
        (rw other)
