-- ===== src/Examples/Access.antt =====
-- Sessions, themes, signing in and signing up.
use the_eye.Base.{true, false, some, ◌≡◌, refl}
use the_eye.Json.Sample.{sample_codec}
use the_eye.Session.{session_json, get_session, set_session}
use the_eye.Session.Laws.{get_session-set_session}
use the_eye.Signup.{slug}
use the_eye.Signup.Slug.{is_slug, is_slug-slug}
use the_eye.Theme.{light, initial_theme, apply_theme}
use the_eye.Theme.Laws.{initial_theme-apply_theme}
use the_eye.Examples.Data.{home, alice}

get_session-set_session_example :
    get_session sample_codec (set_session sample_codec (session_json alice) home)
    ≡ some (session_json alice)
get_session-set_session_example = get_session-set_session sample_codec alice home refl

initial_theme-apply_theme_example :
    (initial_theme (apply_theme light home) ≡ light)
    × ((apply_theme light home).dark ≡ false)
    × (get_session sample_codec (apply_theme light home) ≡ get_session sample_codec home)
initial_theme-apply_theme_example = initial_theme-apply_theme sample_codec light home refl

is_slug-slug_example : is_slug (slug (λ s. s) "acme & sons, ltd.") ≡ true
is_slug-slug_example = is_slug-slug (λ s. s) "acme & sons, ltd."
