-- ===== src/Theme/Laws.antt =====
-- A theme that is applied is the one the next page starts with.
use the_eye.Base.{true, some, ◌≡◌, refl}
use the_eye.Base.Dict.{lookup-insert}
use the_eye.Json.Codec.{Codec}
use the_eye.Browser.{Browser}
use the_eye.Session.{get_session}
use the_eye.Theme.{
  Theme, light, dark, is_dark, theme_of, theme_text, get_stored_theme, apply_theme, initial_theme,
}

theme_of-theme_text : (t : Theme) → theme_of (some (theme_text t)) ≡ some t
theme_of-theme_text light = refl
theme_of-theme_text dark = refl

get_stored_theme-apply_theme :
    (t : Theme) (b : Browser) → b.window ≡ true → get_stored_theme (apply_theme t b) ≡ some t
unfolding get_stored_theme apply_theme
get_stored_theme-apply_theme t b w = rw (w, lookup-insert) (theme_of-theme_text t)

-- In a browser window, a theme that is applied shows at once and is the one that the next page
-- starts with, whatever the system prefers; the session is as it was.
pub initial_theme-apply_theme :
    (c : Codec) (t : Theme) (b : Browser)
    → b.window ≡ true
    → (initial_theme (apply_theme t b) ≡ t)
      × ((apply_theme t b).dark ≡ is_dark t)
      × (get_session c (apply_theme t b) ≡ get_session c b)
unfolding initial_theme apply_theme get_session
initial_theme-apply_theme c t b w =
    (rw (get_stored_theme-apply_theme t b w, initial_theme) refl, refl, rw lookup-insert refl)
