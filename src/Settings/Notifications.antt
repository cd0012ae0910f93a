-- ===== src/Settings/Notifications.antt =====
-- The section of notifications of the settings page (frontend/src/app/settings/page.tsx): its
-- switches, kept in the browser's storage. What is stored is used as it is parsed, so the
-- preferences may be any JSON value. The properties that a text or an array gives to a spread are a
-- parameter.
pub mod Laws
use the_eye.Base.{Bool, true, false, Option, none, some, List, [], ◌∷◌, String, ◌==◌, if◌then◌else◌}
use the_eye.Json.{Json, null, bool, num, hundredths, str, arr, obj, Fields, end, field, property}
use the_eye.Browser.{Browser, get_item, set_item}

abbrev pub notif_key : String
notif_key = "eye_notif_prefs"

-- The state before anything is read.
abbrev pub first_prefs : Json
first_prefs = obj (
    field "critical_alerts" (bool true)
      (field "weekly_digest" (bool true) (field "new_member" (bool false) end)))

-- { ...fields, [key]: value }
unfoldable pub with_field : String → Json → Fields → Fields
with_field k v end = field k v end
with_field k v (field j w fs) = if j == k then field k v fs else field j w (with_field k v fs)

module _ (stringify : Json → String) (parse : String → Option Json) (indexed : Json → Fields) where
  abbrev pub spread : Json → Fields
  spread (obj fs) = fs
  spread null = end
  spread (bool b) = end
  spread (num n) = end
  spread (hundredths n) = end
  spread (str s) = indexed (str s)
  spread (arr items) = indexed (arr items)

  -- if (stored) setPrefs(JSON.parse(stored)), where an error is left aside
  unfoldable pub mount_prefs : Json → Browser → Json
  unfolding get_item
  mount_prefs prefs b = elim (get_item notif_key b) [
    | none ↦ prefs
    | some stored ↦
        if stored == "" then prefs else (elim (parse stored) [ none ↦ prefs | some j ↦ j ])
  ]

  unfoldable pub update_pref : String → Bool → Json → Browser → Json × Browser
  unfolding set_item with_field
  update_pref key value prefs b =
      let next = obj (with_field key (bool value) (spread prefs)) in
      (next, set_item notif_key (stringify next) b)

-- Rendering reads `prefs[item.key]`, which throws (`none`) where the preferences are `null`.
unfoldable pub render_switch : String → Json → Option (Option Json)
unfolding property
render_switch key null = none
render_switch key prefs = some (property key prefs)
