-- ===== src/Keys/Laws.antt =====
-- Revoking, switching and creating keys.
use the_eye.Base.{
  true, not, Option, none, some, List, [], ◌∷◌, map, String, ◌≡◌, refl, ◌==◌, eq_iff, arith, filter,
  all, all-filter, Bool-cases, inl, inr, if◌then◌else◌,
}
use the_eye.Browser.{Browser}
use the_eye.Client.{react}
use the_eye.Http.{Fetched, Outcome, value, no_content, raised, outcome}
use the_eye.Text.{trim}
use the_eye.Api.Keys.{ApiKeyOut, ApiKeyCreated, revoke_api_key, update_api_key, create_api_key}
use the_eye.Api.Call.{key, asked}
use the_eye.Api.Call.Laws.{perform_of_outcome}
use the_eye.Page.Laws.{attempt_of_value}
use the_eye.Keys.{KeysPage, NewKeyForm, handle_revoke, handle_toggle, replace_key, toggled, submit}

module _ (env : Option String) (id : String) (reply : Fetched (Unit {0})) (page : KeysPage)
    (b : Browser) where
  -- Once the server has revoked a key, no key of that id is listed, the others stay in their order,
  -- and nothing else on the page changes but that no revocation runs.
  pub handle_revoke_success :
      outcome reply ≡ value tt
      → ((handle_revoke env id true reply page b).0
          ≡ record page { keys = filter (λ k. not (k.id == id)) page.keys; revoking = none })
        × (all (λ k. not (k.id == id)) (handle_revoke env id true reply page b).0.keys ≡ true)
        × ((handle_revoke env id true reply page b).1 ≡ asked env (key (revoke_api_key id)) b)
  unfolding handle_revoke
  handle_revoke_success h =
      rw
        (attempt_of_value env (key (revoke_api_key id)) reply (record page { revoking = some id }) b
          _ h)
        (refl, all-filter (λ k. not (k.id == id)) page.keys, refl)

ids-replace_key :
    (updated : ApiKeyOut) (ks : List ApiKeyOut)
    → map (λ k. k.id) (map (replace_key updated) ks) ≡ map (λ k. k.id) ks
ids-replace_key updated [] = refl
ids-replace_key updated (k ∷ ks) =
    ground (arith, eq_iff k.id updated.id, ids-replace_key updated ks)

toggled_ids :
    (o : Outcome ApiKeyOut) (page : KeysPage)
    → (map (λ k. k.id) (toggled o page).keys ≡ map (λ k. k.id) page.keys)
      × ((toggled o page).toggling ≡ none)
unfolding toggled
toggled_ids (value updated) page = (ids-replace_key updated page.keys, refl)
toggled_ids no_content page = (refl, refl)
toggled_ids (raised f) page = (refl, refl)

-- Enabling or disabling a key asks for the opposite of its state; whatever the answer, the page
-- lists keys of the same ids in the same order, and no switch runs any more.
pub handle_toggle_ids :
    (env : Option String) (k : ApiKeyOut) (reply : Fetched ApiKeyOut) (page : KeysPage)
    (b : Browser)
    → (map (λ k. k.id) (handle_toggle env k reply page b).0.keys ≡ map (λ k. k.id) page.keys)
      × ((handle_toggle env k reply page b).0.toggling ≡ none)
      × ((handle_toggle env k reply page b).1
          ≡ react reply (asked env (key (update_api_key k.id none (some (not k.is_active)))) b))
unfolding handle_toggle
handle_toggle_ids env k reply page b =
    rw
      (perform_of_outcome env (key (update_api_key k.id none (some (not k.is_active)))) reply b
        refl)
      (let (ids, quiet) = toggled_ids (outcome reply) (record page { toggling = some k.id }) in
        (ids, quiet, refl))

-- A name of white space alone creates no key; any other is sent without the white space around it.
pub submit_lem :
    (env : Option String) (reply : Fetched ApiKeyCreated) (form : NewKeyForm) (b : Browser)
    → (submit env reply form b).1 ≡ (
        if trim form.name == ""
        then b
        else react reply (asked env (key (create_api_key (trim form.name) none)) b))
unfolding submit
submit_lem env reply form b =
    rw (perform_of_outcome env (key (create_api_key (trim form.name) none)) reply b refl)
      (elim (Bool-cases (trim form.name == "")) [ inl e ↦ rw e | inr e ↦ rw e ])
