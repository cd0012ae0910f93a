-- ===== src/Staff/Session/Gate.antt =====
-- The gate of the pages of the staff portal (staff-portal/src/lib/useRequireAuth.ts).
use the_eye.Base.{Bool, true, false, if◌then◌else◌}
use the_eye.Json.Codec.{Codec}
use the_eye.Browser.{Browser, navigate}
use the_eye.Staff.Session.{is_staff}

-- The effect of the first render: whether the page may show, and the browser after it.
unfoldable pub require_staff : Codec → Browser → Bool × Browser
unfolding is_staff navigate
require_staff c b = if is_staff c b then (true, b) else (false, navigate "/login" b)
