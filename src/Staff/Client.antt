-- ===== src/Staff/Client.antt =====
-- `request` of the staff portal (staff-portal/src/lib/api-client.ts): an answer of 401 clears the
-- session, and the page stays where it is.
pub mod Laws
use the_eye.Base.{Option, String, if◌then◌else◌}
use the_eye.Browser.{Browser, send}
use the_eye.Http.{Endpoint, Fetched, Outcome, wire, outcome, is_unauthorised}
use the_eye.Staff.Session.{clear_staff_session}

abbrev pub staff_react {ℓ} : {T : Type ℓ} → Fetched T → Browser → Browser
staff_react reply b = if is_unauthorised reply then clear_staff_session b else b

unfoldable pub staff_request {ℓ} :
    {T : Type ℓ} → Option String → Endpoint → Fetched T → Browser → Outcome T × Browser
unfolding wire outcome send clear_staff_session
staff_request env e reply b = (outcome reply, staff_react reply (send (wire env e) b))
