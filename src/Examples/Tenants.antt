-- ===== src/Examples/Tenants.antt =====
-- The tenants, their notes and keys, and the staff's own team.
use the_eye.Base.Keyed.{remove_id}
use the_eye.Base.{
  ◌+◌, true, false, not, none, some, List, [], ◌∷◌, map, String, ◌≡◌, refl, filter, all, length,
}
use the_eye.Http.{response, resolved, rejected, Fetched, outcome}
use the_eye.Staff.Api.Access.{StaffApiKey, revoke_api_key}
use the_eye.Staff.Api.Tenants.{TenantStats, StaffNote}
use the_eye.Staff.Api.Call.{access, staff_asked}
use the_eye.Staff.Support.{SupportPage, World, select_tenant, notes_came, land}
use the_eye.Staff.Support.Steps.{Reach, here, next, selected, notes_answered}
use the_eye.Staff.Support.Own.{ShowsOwn, Reach-ShowsOwn}
use the_eye.Staff.Support.Stale.{stale_notes_reachable}
use the_eye.Staff.Tenants.{TenantsPage, active_tenants, tenant_id, toggle, filtered}
use the_eye.Staff.Tenants.Laws.{filtered-toggle}
use the_eye.Staff.ApiKeys.{ApiKeysPage, revoke_one, active_count}
use the_eye.Staff.ApiKeys.Laws.{is_live, revoke_one_accepted}
use the_eye.Examples.Data.{env, home, answered}

abbrev tenant : String → String → TenantStats
tenant id name = record {
  id = id;
  name = name;
  slug = id;
  is_active = true;
  created_at = "2025-01-01";
  paddle_subscription_status = none;
  user_count = 2;
  event_count_30d = 40;
  last_event_at = none;
}

abbrev acme : TenantStats
acme = tenant "acme" "Acme"

abbrev globex : TenantStats
globex = tenant "globex" "Globex"

abbrev note_of : String → String → StaffNote
note_of id tenant_id = record {
  id = id;
  tenant_id = tenant_id;
  author_username = "sam";
  body = "called back";
  created_at = "2025-01-02";
}

abbrev support_page : SupportPage
support_page = record {
  listed = acme ∷ globex ∷ [];
  selected = none;
  notes = [];
  note_search = "";
  new_note = "";
  posting = false;
  deleting = none;
  error = none;
  note_error = "";
}

abbrev support : World
support = record { page = support_page; browser = home; flights = [] }

abbrev acme_notes : Fetched (List StaffNote)
acme_notes = answered (note_of "n1" "acme" ∷ [])

abbrev globex_notes : Fetched (List StaffNote)
globex_notes = answered []

abbrev acme_shown : World
acme_shown = land notes_came acme_notes [] (select_tenant env acme support)

Reach-ShowsOwn_example : ShowsOwn acme_shown
unfolding select_tenant outcome
Reach-ShowsOwn_example =
    Reach-ShowsOwn env
      (next (next here (selected support acme λ p. refl))
        (notes_answered (select_tenant env acme support) "acme" [] [] acme_notes refl (refl, tt)))
      (refl, refl)

stale_notes_reachable_example :
    (v : World) × Reach env false support v
    × (v.page.selected ≡ some globex)
    × (v.page.notes ≡ note_of "n1" "acme" ∷ [])
    × (v.flights ≡ [])
unfolding outcome
stale_notes_reachable_example =
    stale_notes_reachable env support acme globex acme_notes globex_notes refl refl (refl, tt) tt

abbrev as_is : String → String
as_is s = s

abbrev tenants_page : TenantsPage
tenants_page = record {
  listed = acme ∷ record globex { is_active = false } ∷ [];
  search = "m";
  filter_by = active_tenants;
  error = none;
  acting = none;
}

abbrev suspended : TenantStats
suspended = record acme { is_active = false }

filtered-toggle_example :
    filtered as_is (toggle env acme (answered suspended) tenants_page home).0
    ≡ remove_id tenant_id "acme" (filtered as_is tenants_page)
unfolding outcome
filtered-toggle_example =
    filtered-toggle env acme (answered suspended) tenants_page home as_is refl refl

abbrev key_of : String → StaffApiKey
key_of id = record {
  id = id;
  tenant_id = "acme";
  tenant_name = "Acme";
  name = "agent";
  key_prefix = "eye_";
  is_active = true;
  last_used_at = none;
  expires_at = none;
  created_at = "2025-01-01";
  created_by_username = none;
}

abbrev api_keys_page : ApiKeysPage
api_keys_page = record {
  keys = key_of "k1" ∷ key_of "k2" ∷ [];
  search = "";
  error = none;
  revoking = none;
  confirm_revoke = some (key_of "k1");
}

-- The server's answer to a revocation, which has no content.
abbrev done : Fetched (Unit {0})
done = response 204 "No Content" (resolved "") (rejected "no JSON")

revoke_one_accepted_example :
    (map (λ x. x.id) (revoke_one env (key_of "k1") done api_keys_page home).0.keys
      ≡ map (λ x. x.id) api_keys_page.keys)
    × (all (λ x. not (is_live "k1" x)) (revoke_one env (key_of "k1") done api_keys_page home).0.keys
        ≡ true)
    × (active_count (revoke_one env (key_of "k1") done api_keys_page home).0.keys
          + length (filter (is_live "k1") api_keys_page.keys)
        ≡ active_count api_keys_page.keys)
    × ((revoke_one env (key_of "k1") done api_keys_page home).0.confirm_revoke ≡ none)
    × ((revoke_one env (key_of "k1") done api_keys_page home).1
        ≡ staff_asked env (access (revoke_api_key "k1")) home)
unfolding outcome
revoke_one_accepted_example = revoke_one_accepted env (key_of "k1") done api_keys_page home refl
