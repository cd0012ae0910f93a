-- ===== src/Settings/Appearance.antt =====
-- The choice of a theme (frontend/src/app/settings/page.tsx, AppearanceSection).
use the_eye.Base.{Option, some, true, ◌≡◌, refl, ap}
use the_eye.Browser.{Browser}
use the_eye.Theme.{Theme, initial_theme, apply_theme}
use the_eye.Theme.Laws.{initial_theme-apply_theme}
use the_eye.Json.Codec.{Codec}

-- The theme that is shown as chosen, once the section is mounted.
unfoldable pub mount_appearance : Browser → Option Theme
unfolding initial_theme
mount_appearance b = some (initial_theme b)

unfoldable pub pick : Theme → Browser → Option Theme × Browser
unfolding apply_theme
pick t b = (some t, apply_theme t b)

-- In a browser window, the theme that is picked is shown as chosen, and is the one shown as chosen
-- when the section is mounted again.
pub mount_appearance-pick :
    (c : Codec) (t : Theme) (b : Browser)
    → b.window ≡ true
    → ((pick t b).0 ≡ some t) × (mount_appearance (pick t b).1 ≡ (pick t b).0)
unfolding mount_appearance pick
mount_appearance-pick c t b w = (refl, ap some (initial_theme-apply_theme c t b w).0)
