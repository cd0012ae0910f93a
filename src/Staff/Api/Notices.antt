-- ===== src/Staff/Api/Notices.antt =====
-- Announcements, and the log of what the staff did.
pub mod Laws
use the_eye.Base.{ℕ, Bool, Option, [], ◌∷◌, String, ◌⧺◌}
use the_eye.Base.Dict.{Dict}
use the_eye.Json.{str, bool}
use the_eye.Http.{Endpoint, get_call, bare_call, body_call}
use the_eye.Query.{text_param, number_param, set_truthy}

pub record StaffAnnouncement : Type 0 where
  pub id : String
  pub title : String
  pub body : String
  pub severity : String
  pub is_active : Bool
  pub created_by : String
  pub created_at : String

pub record AuditLogParams : Type 0 where
  pub limit : Option ℕ
  pub offset : Option ℕ
  pub severity : Option String
  pub action : Option String
  pub actor : Option String

unfoldable pub audit_log_query : AuditLogParams → Dict String
unfolding set_truthy
audit_log_query p = set_truthy "actor" (text_param p.actor) (
    set_truthy "action" (text_param p.action) (
      set_truthy "severity" (text_param p.severity) (
        set_truthy "offset" (number_param p.offset)
          (set_truthy "limit" (number_param p.limit) []))))

pub data NoticeCall : Type 0 where
  list_announcements get_audit_log_stats : NoticeCall
  create_announcement : (title body severity : String) → NoticeCall
  toggle_announcement : (id : String) (is_active : Bool) → NoticeCall
  delete_announcement : (id : String) → NoticeCall
  get_audit_log : AuditLogParams → NoticeCall

unfoldable pub notice_endpoint : NoticeCall → Endpoint
notice_endpoint list_announcements = get_call "/v1/staff/announcements" []
notice_endpoint get_audit_log_stats = get_call "/v1/staff/audit-log/stats" []
notice_endpoint (create_announcement title body severity) =
    body_call "POST" "/v1/staff/announcements"
      (("title", str title) ∷ ("body", str body) ∷ ("severity", str severity) ∷ [])
notice_endpoint (toggle_announcement id is_active) =
    body_call "PATCH" ("/v1/staff/announcements/" ⧺ id) (("is_active", bool is_active) ∷ [])
notice_endpoint (delete_announcement id) = bare_call "DELETE" ("/v1/staff/announcements/" ⧺ id)
notice_endpoint (get_audit_log p) = get_call "/v1/staff/audit-log" (audit_log_query p)
