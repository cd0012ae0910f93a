-- ===== src/Keys.antt =====
-- The page of the agents' API keys (frontend/src/app/admin/api-keys/page.tsx).
pub mod Laws
pub mod Reveal
pub mod Limit
use the_eye.Base.{
  ℕ, Bool, true, false, not, ◌&&◌, Option, none, some, List, [], map, String, ◌==◌, leb, length,
  filter, or_else, if◌then◌else◌,
}
use the_eye.Base.Dict.{Dict, lookup}
use the_eye.Text.{trim}
use the_eye.Browser.{Browser}
use the_eye.Http.{Fetched, Outcome, value, no_content, raised, Failure, api_message}
use the_eye.Api.Keys.{
  ApiKeyOut, ApiKeyCreated, Plan, SubscriptionOut, list_api_keys, create_api_key, update_api_key,
  revoke_api_key, get_tenant_subscription,
}
use the_eye.Api.Call.{key, billing, perform}
use the_eye.Page.{Handlers, attempt}

-- `warning` is the text of the last `alert`.
pub record KeysPage : Type 0 where
  pub keys : List ApiKeyOut
  pub sub : Option SubscriptionOut
  pub loading : Bool
  pub error : Option String
  pub show_new : Bool
  pub created_key : Option ApiKeyCreated
  pub revoking : Option String
  pub toggling : Option String
  pub warning : Option String

-- sub?.plan?.limits?.api_keys, with `none` for `undefined` and for `null`
abbrev granted_keys : Option (Dict (Option ℕ)) → Option ℕ
granted_keys none = none
granted_keys (some limits) = or_else (lookup "api_keys" limits) none

abbrev granted : Option SubscriptionOut → Option ℕ
granted none = none
granted (some s) = elim s.plan [ none ↦ none | some p ↦ granted_keys p.limits ]

-- sub?.plan?.limits?.api_keys ?? 20; the variable may be `null`, for "unlimited"
unfoldable pub plan_key_limit : Option SubscriptionOut → Option ℕ
unfolding lookup
plan_key_limit sub = some (or_else (granted sub) 20)

unfoldable pub at_limit : KeysPage → Bool
unfolding plan_key_limit
at_limit page = elim (plan_key_limit page.sub) [ none ↦ false | some n ↦ leb n (length page.keys) ]

abbrev load_failed : Failure → KeysPage → KeysPage
load_failed f page = record page {
  error = some (api_message "Failed to load API keys." f);
  loading = false;
}

-- Promise.all of the two answers: `second_first` says which rejection comes first.
abbrev both_loaded : Bool → Outcome (List ApiKeyOut) → Outcome SubscriptionOut → KeysPage → KeysPage
both_loaded second_first (value ks) (value s) page = record page {
  keys = ks;
  sub = some s;
  loading = false;
}
both_loaded second_first (raised f) (raised g) page =
    load_failed (if second_first then g else f) page
both_loaded second_first (raised f) _ page = load_failed f page
both_loaded second_first _ (raised g) page = load_failed g page
both_loaded second_first _ _ page = record page { loading = false }

abbrev replace_key : ApiKeyOut → ApiKeyOut → ApiKeyOut
replace_key updated k = if k.id == updated.id then updated else k

-- With no content `updated.id` throws inside the `try`.
toggled : Outcome ApiKeyOut → KeysPage → KeysPage
toggled (value updated) page = record page {
  keys = map (replace_key updated) page.keys;
  toggling = none;
}
toggled no_content page = record page { warning = some "Failed to update key."; toggling = none }
toggled (raised f) page = record page { warning = some "Failed to update key."; toggling = none }

module _ (env : Option String) where
  pub load :
      Bool
      → Fetched (List ApiKeyOut)
      → Fetched SubscriptionOut
      → KeysPage
      → Browser
      → KeysPage × Browser
  load second_first keys_reply sub_reply page b =
      let (keys, b₁) = perform env (key list_api_keys) keys_reply b in
      let (sub, b₂) = perform env (billing get_tenant_subscription) sub_reply b₁ in
      (both_loaded second_first keys sub page, b₂)

  -- The dialog gives way to the new key, and the list is loaded again.
  pub handle_create :
      ApiKeyCreated
      → Bool
      → Fetched (List ApiKeyOut)
      → Fetched SubscriptionOut
      → KeysPage
      → Browser
      → KeysPage × Browser
  unfolding load
  handle_create created second_first keys_reply sub_reply page =
      load second_first keys_reply sub_reply
        (record page { show_new = false; created_key = some created })

  pub handle_revoke : String → Bool → Fetched (Unit {0}) → KeysPage → Browser → KeysPage × Browser
  handle_revoke id false reply page b = (page, b)
  handle_revoke id true reply page b =
      attempt env (key (revoke_api_key id))
        (record {
          done = λ p. record p { keys = filter (λ k. not (k.id == id)) p.keys };
          failed = λ f p. record p { warning = some "Failed to revoke key." };
          finally = λ p. record p { revoking = none };
        })
        reply (record page { revoking = some id }) b

  pub handle_toggle : ApiKeyOut → Fetched ApiKeyOut → KeysPage → Browser → KeysPage × Browser
  handle_toggle k reply page b =
      let (result, after) =
        perform env (key (update_api_key k.id none (some (not k.is_active)))) reply b in
      (toggled result (record page { toggling = some k.id }), after)

-- The form of a new key: its state, and the key that it hands to the page.
pub record NewKeyForm : Type 0 where
  pub name : String
  pub loading : Bool
  pub error : Option String
  pub created : Option ApiKeyCreated

created_by : Outcome ApiKeyCreated → NewKeyForm → NewKeyForm
created_by (value k) form = record form { loading = false; created = some k }
created_by no_content form = record form { loading = false }
created_by (raised f) form = record form {
  loading = false;
  error = some (api_message "Failed to create key." f);
}

pub submit : Option String → Fetched ApiKeyCreated → NewKeyForm → Browser → NewKeyForm × Browser
unfolding created_by
submit env reply form b =
    let (result, after) = perform env (key (create_api_key (trim form.name) none)) reply b in
    if trim form.name == ""
    then (form, b)
    else (created_by result (record form { loading = true; error = none }), after)
