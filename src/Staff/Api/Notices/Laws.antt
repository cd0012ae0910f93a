-- ===== src/Staff/Api/Notices/Laws.antt =====
-- What the query of the staff's audit log says.
use the_eye.Base.{◌≡◌}
use the_eye.Base.Dict.{lookup}
use the_eye.Query.{text_param, number_param}
use the_eye.Query.Laws.{truthy, query_laws}
use the_eye.Staff.Api.Notices.{AuditLogParams, audit_log_query}

-- Under each of its keys the query of the audit log holds exactly the filter that is given and is
-- neither the empty text nor the number 0.
pub audit_log_query_lem :
    (p : AuditLogParams)
    → (lookup "limit" (audit_log_query p) ≡ truthy (number_param p.limit))
      × (lookup "offset" (audit_log_query p) ≡ truthy (number_param p.offset))
      × (lookup "severity" (audit_log_query p) ≡ truthy (text_param p.severity))
      × (lookup "action" (audit_log_query p) ≡ truthy (text_param p.action))
      × (lookup "actor" (audit_log_query p) ≡ truthy (text_param p.actor))
unfolding audit_log_query lookup
audit_log_query_lem p =
    (simp query_laws, simp query_laws, simp query_laws, simp query_laws, simp query_laws)
