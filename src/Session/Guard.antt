-- ===== src/Session/Guard.antt =====
-- The gate of the dashboard's pages (frontend/src/lib/useRequireAuth.ts); those of the audit trail,
-- of file activity and of whistleblower reports do without it.
use the_eye.Base.{Bool, true, false, ◌∷◌, ◌≡◌, arith, if◌then◌else◌}
use the_eye.Json.Codec.{Codec}
use the_eye.Browser.{Browser, navigate}
use the_eye.Session.{is_logged_in}

-- The effect of the first render: whether the page may show, and the browser after it.
unfoldable pub require_auth : Codec → Browser → Bool × Browser
unfolding is_logged_in navigate
require_auth c b = if is_logged_in c b then (true, b) else (false, navigate "/login" b)

-- A page shows exactly when a session is stored; otherwise the browser goes to the login page, and
-- what is stored is left as it was in both cases.
pub require_auth_lem :
    (c : Codec) (b : Browser)
    → ((require_auth c b).0 ≡ is_logged_in c b)
      × ((require_auth c b).1.visited
          ≡ (if is_logged_in c b then b.visited else "/login" ∷ b.visited))
      × ((require_auth c b).1.storage ≡ b.storage)
unfolding require_auth
require_auth_lem c b = ground arith
