-- ===== src/Examples/Forms.antt =====
-- The switches of the notifications, the filters, the queue and the variables of a key.
use the_eye.Base.{
  Bool, true, false, none, some, Option, List, [], ◌∷◌, String, ◌≡◌, ◌==◌, refl, length, all,
  if◌then◌else◌,
}
use the_eye.Base.Dict.{lookup}
use the_eye.Json.{Json, bool, obj, end, field, Fields, property, get_field}
use the_eye.Settings.Notifications.{first_prefs, mount_prefs}
use the_eye.Settings.Notifications.Laws.{flip, last_value, mount_prefs-flip}
use the_eye.EventParts.{FilterField, actor_field, filter_value, set_filters}
use the_eye.EventParts.Laws.{key_of, not_nil, search_query-set_filters}
use the_eye.Api.Events.{search_query}
use the_eye.Staff.Api.Tenants.{DeletionQueueItem}
use the_eye.Staff.Approval.Offers.{fits, offers, offers_lem}
use the_eye.Keys.Reveal.{agent_variables, read_variables, read_variables-agent_variables}
use the_eye.Examples.Data.{env, home, filters}

-- Two switches are changed, the first of them twice.
abbrev changes : List (String × Bool)
changes = ("weekly_digest", false) ∷ ("new_member", true) ∷ []

abbrev stored_prefs : Json
stored_prefs = obj (
    field "critical_alerts" (bool true)
      (field "weekly_digest" (bool false) (field "new_member" (bool true) end)))

abbrev first_fields : Fields
first_fields =
    field "critical_alerts" (bool true)
      (field "weekly_digest" (bool true) (field "new_member" (bool false) end))

abbrev write_prefs : Json → String
write_prefs j = "prefs"

abbrev read_prefs : String → Option Json
read_prefs s = if s == "" then none else some stored_prefs

abbrev no_fields : Json → Fields
no_fields j = end

mount_prefs-flip_example :
    let shown =
      flip write_prefs read_prefs no_fields
        (("weekly_digest", true) ∷ changes)
        (obj first_fields, home) in
    ((j : String)
      → property j shown.0
        ≡ last_value j (("weekly_digest", true) ∷ changes) (get_field j first_fields))
    × (mount_prefs write_prefs read_prefs no_fields first_prefs shown.1 ≡ shown.0)
unfolding the_eye.Settings.Notifications.update_pref the_eye.Settings.Notifications.with_field
mount_prefs-flip_example =
    mount_prefs-flip write_prefs read_prefs no_fields "weekly_digest" true changes first_fields home
      first_prefs refl refl

search_query-set_filters_example :
    let w = set_filters actor_field "bob" filters in
    (filter_value actor_field w ≡ "bob")
    × ((g : FilterField) → lookup (key_of g) (search_query w) ≡ not_nil (filter_value g w))
    × (lookup "offset" (search_query w) ≡ some "0")
search_query-set_filters_example = search_query-set_filters actor_field "bob" filters

abbrev asked_to_go : String → Option String → DeletionQueueItem
asked_to_go id scheduled = record {
  id = id;
  name = "Acme";
  slug = "acme";
  deletion_requested_at = "2025-01-01";
  deletion_reason = none;
  scheduled_deletion_at = scheduled;
  user_count = 3;
  contact_email = none;
}

offers_lem_example :
    let queue = asked_to_go "t1" none ∷ asked_to_go "t2" (some "2025-03-01") ∷ [] in
    (all fits (offers queue) ≡ true) × (length (offers queue) ≡ 4)
offers_lem_example = offers_lem (asked_to_go "t1" none ∷ asked_to_go "t2" (some "2025-03-01") ∷ [])

read_variables-agent_variables_example :
    read_variables (agent_variables env "t1" "eye_k=ey")
    ≡ ("THE_EYE_TENANT_ID", "t1")
      ∷ ("THE_EYE_API_KEY", "eye_k=ey")
      ∷ ("THE_EYE_API_URL", "https://api.example.org")
      ∷ []
read_variables-agent_variables_example =
    read_variables-agent_variables env "t1" "eye_k=ey" refl refl refl
