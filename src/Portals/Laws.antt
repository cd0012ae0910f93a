-- ===== src/Portals/Laws.antt =====
-- The two sessions follow the specification, whatever happens in the browser.
use the_eye.Base.{Option, String, ◌≡◌, refl}
use the_eye.Json.{Json}
use the_eye.Json.Codec.{Codec}
use the_eye.Browser.{Browser}
use the_eye.Session.{get_session}
use the_eye.Api.Auth
use the_eye.Theme.{Theme, apply_theme, theme_text}
use the_eye.Staff.Session.{get_staff_session}
use the_eye.Portals.{signed_in}
use the_eye.Portals.Seen.{signed_in-set_item}

module _ (c : Codec) (env : Option String) (b : Browser) where
  signed_in-choose_theme : (t : Theme) → signed_in c (apply_theme t b) ≡ signed_in c b
  unfolding apply_theme get_session get_staff_session
  signed_in-choose_theme t = signed_in-set_item c b "the_eye_theme" (theme_text t) refl refl
