-- ===== src/Api/Users.antt =====
-- Users of the tenant, and the ingestion sources that feed it.
use the_eye.Base.{Bool, Option, [], ◌∷◌, String, ◌⧺◌}
use the_eye.Json.{str}
use the_eye.Http.{Endpoint, get_call, bare_call, body_call}

pub record UserRead : Type 0 where
  pub id : String
  pub username : String
  pub role : String
  pub is_active : Bool
  pub created_at : String

pub data UserCall : Type 0 where
  list_users : UserCall
  create_user : (username password role : String) → UserCall
  deactivate_user reactivate_user : (id : String) → UserCall
  change_user_role : (id role : String) → UserCall
  reset_user_password : (id new_password : String) → UserCall

unfoldable pub user_endpoint : UserCall → Endpoint
user_endpoint list_users = get_call "/v1/users" []
user_endpoint (create_user username password role) =
    body_call "POST" "/v1/users"
      (("username", str username) ∷ ("password", str password) ∷ ("role", str role) ∷ [])
user_endpoint (deactivate_user id) = bare_call "POST" ("/v1/users/" ⧺ id ⧺ "/deactivate")
user_endpoint (reactivate_user id) = bare_call "POST" ("/v1/users/" ⧺ id ⧺ "/reactivate")
user_endpoint (change_user_role id role) =
    body_call "PATCH" ("/v1/users/" ⧺ id ⧺ "/role") (("role", str role) ∷ [])
user_endpoint (reset_user_password id new_password) =
    body_call "POST" ("/v1/users/" ⧺ id ⧺ "/reset-password")
      (("new_password", str new_password) ∷ [])

pub record SourceRead : Type 0 where
  pub id : String
  pub name : String
  pub source_kind : String
  pub api_key_prefix : String
  pub is_active : Bool
  pub created_at : String
  pub last_seen_at : Option String

pub record SourceCreated : Type 0 where
  pub id : String
  pub name : String
  pub source_kind : String
  pub api_key : String
  pub api_key_prefix : String

pub data SourceCall : Type 0 where
  list_sources : SourceCall
  create_source : (name source_kind : String) → SourceCall
  deactivate_source : (id : String) → SourceCall

unfoldable pub source_endpoint : SourceCall → Endpoint
source_endpoint list_sources = get_call "/v1/sources" []
source_endpoint (create_source name source_kind) =
    body_call "POST" "/v1/sources" (("name", str name) ∷ ("source_kind", str source_kind) ∷ [])
source_endpoint (deactivate_source id) = bare_call "POST" ("/v1/sources/" ⧺ id ⧺ "/deactivate")
