-- ===== src/Client.antt =====
-- `request` of the dashboard (frontend/src/lib/api-client.ts) and what it does to the session.
pub mod Laws
use the_eye.Base.{Option, String, if◌then◌else◌}
use the_eye.Browser.{Browser, navigate, send}
use the_eye.Session.{clear_session}
use the_eye.Http.{Endpoint, Fetched, Outcome, wire, outcome, is_unauthorised}

-- On 401: clearSession(), and in a window location.replace("/login").
unfoldable pub expel : Browser → Browser
unfolding clear_session navigate
expel b = let cleared = clear_session b in if b.window then navigate "/login" cleared else cleared

-- What an answer does to the browser.
abbrev pub react {ℓ} : {T : Type ℓ} → Fetched T → Browser → Browser
react reply b = if is_unauthorised reply then expel b else b

-- The answer of `fetch` to the request is given.
unfoldable pub request {ℓ} :
    {T : Type ℓ} → Option String → Endpoint → Fetched T → Browser → Outcome T × Browser
unfolding wire outcome send expel
request env e reply b = (outcome reply, react reply (send (wire env e) b))
