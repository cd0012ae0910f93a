-- ===== src/Settings/Notifications/Laws.antt =====
-- What the switches show is what the next visit shows.
use the_eye.Base.{
  Bool, Option, none, some, List, [], ◌∷◌, String, ◌==◌, ◌≡◌, refl, ap, arith, eq_iff,
  if◌then◌else◌, Bool-cases, inl, inr, ◌∙◌,
}
use the_eye.Base.Dict.{lookup-insert}
use the_eye.Json.{Json, bool, obj, Fields, end, field, get_field, property}
use the_eye.Browser.{Browser, get_item, set_item}
use the_eye.Settings.Notifications.{notif_key, with_field, mount_prefs, update_pref}

get_field-with_field :
    (k j : String) (v : Json) (fs : Fields)
    → get_field j (with_field k v fs) ≡ (if k == j then some v else get_field j fs)
unfolding get_field with_field
get_field-with_field k j v end = refl
get_field-with_field k j v (field i w fs) =
    ground (arith, eq_iff k j, eq_iff i k, eq_iff i j, get_field-with_field k j v fs)

-- The last value given to a switch, or the one it had.
abbrev pub last_value : String → List (String × Bool) → Option Json → Option Json
last_value j [] old = old
last_value j ((key, value) ∷ changes) old =
    last_value j changes (if key == j then some (bool value) else old)

module _ (stringify : Json → String) (parse : String → Option Json) (indexed : Json → Fields) where
  -- Changes of switches, one after the other.
  abbrev pub flip : List (String × Bool) → Json × Browser → Json × Browser
  flip [] s = s
  flip ((key, value) ∷ changes) (prefs, b) =
      flip changes (update_pref stringify parse indexed key value prefs b)

  property-flip :
      (changes : List (String × Bool)) (fs : Fields) (b : Browser) (j : String)
      → property j (flip changes (obj fs, b)).0 ≡ last_value j changes (get_field j fs)
  unfolding property update_pref
  property-flip [] fs b j = refl
  property-flip ((key, value) ∷ changes) fs b j =
      property-flip changes (with_field key (bool value) fs) _ j
      ∙ ap (last_value j changes) (get_field-with_field key j (bool value) fs)

  get_item-update_pref :
      (key : String) (value : Bool) (prefs : Json) (b : Browser)
      → let s = update_pref stringify parse indexed key value prefs b in
        get_item notif_key s.1 ≡ some (stringify s.0)
  unfolding get_item set_item update_pref
  get_item-update_pref key value prefs b = rw (lookup-insert notif_key notif_key) refl

  get_item-flip :
      (changes : List (String × Bool)) (s : Json × Browser)
      → get_item notif_key s.1 ≡ some (stringify s.0)
      → get_item notif_key (flip changes s).1 ≡ some (stringify (flip changes s).0)
  get_item-flip [] s h = h
  get_item-flip ((key, value) ∷ changes) (prefs, b) h =
      get_item-flip changes _ (get_item-update_pref key value prefs b)

  mounted :
      (prefs : Json) (b : Browser) (stored : String) (j : Json)
      → parse "" ≡ none
      → get_item notif_key b ≡ some stored
      → parse stored ≡ some j
      → mount_prefs stringify parse indexed prefs b ≡ j
  unfolding mount_prefs
  mounted prefs b stored j empty e h = elim (Bool-cases (stored == "")) [
    | inl n ↦ ground (arith, empty, h, (eq_iff stored "").0 n)
    | inr n ↦ rw (mount_prefs, e, n, h) refl
  ]

  -- After any changes of switches, at least one, starting from an object: each switch shows the last
  -- value that it was given, or what it showed before where it was given none, and if the stored
  -- text of what is shown parses back to it, and the empty text does not parse, the section shows
  -- the same when it is opened again, whatever it shows first.
  pub mount_prefs-flip :
      (key : String) (value : Bool) (more : List (String × Bool)) (fs : Fields) (b : Browser)
      (prefs : Json)
      → parse "" ≡ none
      → (let shown = flip ((key, value) ∷ more) (obj fs, b) in
          parse (stringify shown.0) ≡ some shown.0)
      → let shown = flip ((key, value) ∷ more) (obj fs, b) in
        ((j : String) → property j shown.0 ≡ last_value j ((key, value) ∷ more) (get_field j fs))
        × (mount_prefs stringify parse indexed prefs shown.1 ≡ shown.0)
  mount_prefs-flip key value more fs b prefs empty h =
      let after = update_pref stringify parse indexed key value (obj fs) b in
      (
        property-flip ((key, value) ∷ more) fs b,
        mounted prefs (flip more after).1 (stringify (flip more after).0) (flip more after).0 empty
            (get_item-flip more after (get_item-update_pref key value (obj fs) b)) h,
      )
