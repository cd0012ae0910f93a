-- ===== src/Staff/Tenant.antt =====
-- The page of one tenant, with its users, keys and notes
-- (staff-portal/src/app/tenants/[id]/page.tsx).
use the_eye.Base.{
  Bool, true, false, Option, none, some, List, [], ◌∷◌, map, String, ◌==◌, filter, if◌then◌else◌,
}
use the_eye.Base.Keyed.{replace_id, remove_id}
use the_eye.Text.{trim}
use the_eye.Browser.{Browser}
use the_eye.Http.{Fetched, Failure, api_message}
use the_eye.Staff.Api.Access.{
  UserWithTenant, StaffApiKey, AccessCall, list_all_api_keys, revoke_api_key, suspend_client_user,
  activate_client_user,
}
use the_eye.Staff.Api.Tenants.{
  TenantStats, StaffNote, get_tenant, get_tenant_users, get_tenant_notes, add_tenant_note,
  delete_tenant_note,
}
use the_eye.Staff.Api.Call.{tenants, access}
use the_eye.Staff.Page.{staff_load, staff_take, staff_attempt}
use the_eye.Staff.Tenants.{toggle_call}

pub data Tab : Type 0 where
  overview users_tab keys_tab notes_tab : Tab

pub record TenantPage : Type 0 where
  pub tenant : Option TenantStats
  pub tab : Tab
  pub error : Option String
  pub acting : Bool
  pub users : List UserWithTenant
  pub keys : List StaffApiKey
  pub notes : List StaffNote
  pub new_note : String
  pub posting : Bool
  pub deleting : Option String
  pub revoking : Option String
  pub user_acting : Option String

abbrev pub user_id : UserWithTenant → String
user_id u = u.id

abbrev pub note_id : StaffNote → String
note_id n = n.id

abbrev pub failed_with : String → Failure → TenantPage → TenantPage
failed_with fallback f p = record p { error = some (api_message fallback f) }

-- (x) => x.id === k.id ? { ...x, is_active: false } : x
abbrev pub revoke_in : String → StaffApiKey → StaffApiKey
revoke_in id x = if x.id == id then record x { is_active = false } else x

abbrev pub client_user_call : UserWithTenant → AccessCall
client_user_call u = if u.is_active then suspend_client_user u.id else activate_client_user u.id

module _ (env : Option String) where
  unfoldable pub load_tenant :
      String → Fetched TenantStats → TenantPage → Browser → TenantPage × Browser
  load_tenant id =
      staff_load env (tenants (get_tenant id)) (λ t p. record p { tenant = some t })
        (failed_with "Failed to load tenant")

  -- What a tab loads once its list is shown empty; errors are left aside.
  unfoldable pub load_users :
      TenantStats → Fetched (List UserWithTenant) → TenantPage → Browser → TenantPage × Browser
  load_users t reply page b = elim page.users [
    | [] ↦
        staff_load env (tenants (get_tenant_users t.id)) (λ us p. record p { users = us })
          (λ f p. p) reply page b
    | u ∷ us ↦ (page, b)
  ]

  -- All keys of all tenants are asked for, and those of the tenant kept.
  unfoldable pub load_keys :
      TenantStats → Fetched (List StaffApiKey) → TenantPage → Browser → TenantPage × Browser
  load_keys t reply page b = elim page.keys [
    | [] ↦
        staff_load env (access list_all_api_keys)
          (λ ks p. record p { keys = filter (λ k. k.tenant_id == t.id) ks }) (λ f p. p) reply page b
    | k ∷ ks ↦ (page, b)
  ]

  unfoldable pub load_notes :
      TenantStats → Fetched (List StaffNote) → TenantPage → Browser → TenantPage × Browser
  load_notes t reply page b = elim page.notes [
    | [] ↦
        staff_load env (tenants (get_tenant_notes t.id)) (λ ns p. record p { notes = ns })
          (λ f p. p) reply page b
    | n ∷ ns ↦ (page, b)
  ]

  unfoldable pub toggle_tenant : Fetched TenantStats → TenantPage → Browser → TenantPage × Browser
  toggle_tenant reply page b = elim page.tenant [
    | none ↦ (page, b)
    | some t ↦
        staff_take env (tenants (toggle_call t))
          (record {
            taken = λ updated p. record p { tenant = some updated };
            failed = failed_with "Action failed";
            finally = λ p. record p { acting = false };
          })
          reply (record page { acting = true }) b
  ]

  unfoldable pub toggle_user :
      UserWithTenant → Fetched UserWithTenant → TenantPage → Browser → TenantPage × Browser
  toggle_user u reply page =
      staff_take env (access (client_user_call u))
        (record {
          taken = λ updated p. record p { users = replace_id user_id updated p.users };
          failed = failed_with "Failed";
          finally = λ p. record p { user_acting = none };
        })
        reply (record page { user_acting = some u.id })

  unfoldable pub revoke_key :
      StaffApiKey → Fetched (Unit {0}) → TenantPage → Browser → TenantPage × Browser
  revoke_key k reply page =
      staff_attempt env (access (revoke_api_key k.id))
        (record {
          done = λ p. record p { keys = map (revoke_in k.id) p.keys };
          failed = failed_with "Revoke failed";
          finally = λ p. record p { revoking = none };
        })
        reply (record page { revoking = some k.id })

  post_to : TenantStats → Fetched StaffNote → TenantPage → Browser → TenantPage × Browser
  post_to t reply page =
      staff_take env (tenants (add_tenant_note t.id (trim page.new_note)))
        (record {
          taken = λ n p. record p { notes = n ∷ p.notes; new_note = "" };
          failed = failed_with "Failed to post";
          finally = λ p. record p { posting = false };
        })
        reply (record page { posting = true })

  unfoldable pub post_note : Fetched StaffNote → TenantPage → Browser → TenantPage × Browser
  unfolding post_to
  post_note reply page b = elim page.tenant [
    | none ↦ (page, b)
    | some t ↦ if trim page.new_note == "" then (page, b) else post_to t reply page b
  ]

  unfoldable pub delete_note :
      String → Fetched (Unit {0}) → TenantPage → Browser → TenantPage × Browser
  delete_note id reply page b = elim page.tenant [
    | none ↦ (page, b)
    | some t ↦
        staff_attempt env (tenants (delete_tenant_note t.id id))
          (record {
            done = λ p. record p { notes = remove_id note_id id p.notes };
            failed = failed_with "Delete failed";
            finally = λ p. record p { deleting = none };
          })
          reply (record page { deleting = some id }) b
  ]
