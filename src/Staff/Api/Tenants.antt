-- ===== src/Staff/Api/Tenants.antt =====
-- The clients: their tenants, the users and notes of a tenant, and the queue of tenants that asked
-- to be deleted.
use the_eye.Base.{ℕ, Bool, Option, [], ◌∷◌, String, ◌⧺◌}
use the_eye.Json.{str, text_or_null}
use the_eye.Http.{Endpoint, get_call, bare_call, body_call}

pub record PlatformOverview : Type 0 where
  pub total_tenants : ℕ
  pub active_tenants : ℕ
  pub suspended_tenants : ℕ
  pub total_users : ℕ
  pub total_events_30d : ℕ
  pub new_tenants_30d : ℕ

pub record TenantStats : Type 0 where
  pub id : String
  pub name : String
  pub slug : String
  pub is_active : Bool
  pub created_at : String
  pub paddle_subscription_status : Option String
  pub user_count : ℕ
  pub event_count_30d : ℕ
  pub last_event_at : Option String

pub record StaffNote : Type 0 where
  pub id : String
  pub tenant_id : String
  pub author_username : String
  pub body : String
  pub created_at : String

pub record DeletionQueueItem : Type 0 where
  pub id : String
  pub name : String
  pub slug : String
  pub deletion_requested_at : String
  pub deletion_reason : Option String
  pub scheduled_deletion_at : Option String
  pub user_count : ℕ
  pub contact_email : Option String

pub data TenantCall : Type 0 where
  get_overview list_tenants get_deletion_queue : TenantCall
  get_tenant suspend_tenant activate_tenant get_tenant_users get_tenant_notes :
      (id : String) → TenantCall
  add_tenant_note : (tenant_id body : String) → TenantCall
  delete_tenant_note : (tenant_id note_id : String) → TenantCall
  approve_tenant_deletion :
      (tenant_id password reason : String) (scheduled_at : Option String) → TenantCall
  reject_tenant_deletion execute_scheduled_deletion :
      (tenant_id password reason : String) → TenantCall

unfoldable pub tenant_endpoint : TenantCall → Endpoint
tenant_endpoint get_overview = get_call "/v1/staff/overview" []
tenant_endpoint list_tenants = get_call "/v1/staff/tenants" []
tenant_endpoint get_deletion_queue = get_call "/v1/staff/deletion-queue" []
tenant_endpoint (get_tenant id) = get_call ("/v1/staff/tenants/" ⧺ id) []
tenant_endpoint (suspend_tenant id) = bare_call "POST" ("/v1/staff/tenants/" ⧺ id ⧺ "/suspend")
tenant_endpoint (activate_tenant id) = bare_call "POST" ("/v1/staff/tenants/" ⧺ id ⧺ "/activate")
tenant_endpoint (get_tenant_users id) = get_call ("/v1/staff/tenants/" ⧺ id ⧺ "/users") []
tenant_endpoint (get_tenant_notes id) = get_call ("/v1/staff/tenants/" ⧺ id ⧺ "/notes") []
tenant_endpoint (add_tenant_note tenant_id body) =
    body_call "POST" ("/v1/staff/tenants/" ⧺ tenant_id ⧺ "/notes") (("body", str body) ∷ [])
tenant_endpoint (delete_tenant_note tenant_id note_id) =
    bare_call "DELETE" ("/v1/staff/tenants/" ⧺ tenant_id ⧺ "/notes/" ⧺ note_id)
tenant_endpoint (approve_tenant_deletion tenant_id password reason scheduled_at) =
    body_call "POST" ("/v1/staff/deletion-queue/" ⧺ tenant_id ⧺ "/approve") (
      ("password", str password)
      ∷ ("reason", str reason)
      ∷ ("scheduled_at", text_or_null scheduled_at)
      ∷ [])
tenant_endpoint (reject_tenant_deletion tenant_id password reason) =
    body_call "POST" ("/v1/staff/deletion-queue/" ⧺ tenant_id ⧺ "/reject")
      (("password", str password) ∷ ("reason", str reason) ∷ [])
tenant_endpoint (execute_scheduled_deletion tenant_id password reason) =
    body_call "POST" ("/v1/staff/deletion-queue/" ⧺ tenant_id ⧺ "/execute")
      (("password", str password) ∷ ("reason", str reason) ∷ [])
