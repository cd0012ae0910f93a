-- ===== src/Api/Activity/Laws.antt =====
-- What the queries of file activity and of the audit trail say.
use the_eye.Base.{some, ◌≡◌}
use the_eye.Base.Dict.{lookup}
use the_eye.Query.{text_param, number_param}
use the_eye.Query.Laws.{truthy, query_laws}
use the_eye.Api.Activity.{
  FileActivityParams, AuditTrailParams, file_activity_query, audit_trail_query,
}

-- Under each of its keys the query of file activity holds exactly the parameter that is given and
-- is neither the empty text nor the number 0.
pub file_activity_query_lem :
    (p : FileActivityParams)
    → (lookup "actor_id" (file_activity_query p) ≡ truthy (text_param p.actor_id))
      × (lookup "host" (file_activity_query p) ≡ truthy (text_param p.host))
      × (lookup "operation" (file_activity_query p) ≡ truthy (text_param p.operation))
      × (lookup "limit" (file_activity_query p) ≡ truthy (number_param p.limit))
      × (lookup "offset" (file_activity_query p) ≡ truthy (number_param p.offset))
unfolding file_activity_query lookup
file_activity_query_lem p =
    (simp query_laws, simp query_laws, simp query_laws, simp query_laws, simp query_laws)

-- The query of the audit trail always holds the subject, and under its other keys exactly the
-- parameter that is given and is neither the empty text nor the number 0.
pub audit_trail_query_lem :
    (p : AuditTrailParams)
    → (lookup "subject" (audit_trail_query p) ≡ some p.subject)
      × (lookup "machine" (audit_trail_query p) ≡ truthy (text_param p.machine))
      × (lookup "from" (audit_trail_query p) ≡ truthy (text_param p.from))
      × (lookup "to" (audit_trail_query p) ≡ truthy (text_param p.to))
      × (lookup "limit" (audit_trail_query p) ≡ truthy (number_param p.limit))
unfolding audit_trail_query lookup
audit_trail_query_lem p =
    (simp query_laws, simp query_laws, simp query_laws, simp query_laws, simp query_laws)
