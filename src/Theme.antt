-- ===== src/Theme.antt =====
-- The colour theme of the dashboard (frontend/src/lib/theme.ts).
pub mod Laws
use the_eye.Base.{Bool, true, false, Option, none, some, String, ◌==◌, if◌then◌else◌}
use the_eye.Browser.{Browser, get_item, set_item}

pub data Theme : Type 0 where
  light dark : Theme

abbrev pub theme_key : String
theme_key = "the_eye_theme"

abbrev pub theme_text : Theme → String
theme_text light = "light"
theme_text dark = "dark"

abbrev pub is_dark : Theme → Bool
is_dark light = false
is_dark dark = true

-- stored === "light" || stored === "dark" ? stored : null
abbrev pub theme_of : Option String → Option Theme
theme_of none = none
theme_of (some s) = if s == "light" then some light else if s == "dark" then some dark else none

unfoldable pub get_stored_theme : Browser → Option Theme
unfolding get_item
get_stored_theme b = if b.window then theme_of (get_item theme_key b) else none

unfoldable pub apply_theme : Theme → Browser → Browser
unfolding set_item
apply_theme theme b = set_item theme_key (theme_text theme) (record b { dark = is_dark theme })

abbrev preferred : Browser → Theme
preferred b = if b.window then (if b.prefers_dark then dark else light) else light

unfoldable pub initial_theme : Browser → Theme
unfolding get_stored_theme
initial_theme b = elim (get_stored_theme b) [ none ↦ preferred b | some t ↦ t ]
