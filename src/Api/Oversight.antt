-- ===== src/Api/Oversight.antt =====
-- Deletion requests and their approvals, investigations, intrusion statistics and whistleblower
-- reports as their readers see them.
use the_eye.Base.{Option, List, [], ◌∷◌, String, ◌⧺◌}
use the_eye.Json.{str}
use the_eye.Http.{Endpoint, get_call, body_call}

pub record DeletionApproval : Type 0 where
  pub approver_role : String
  pub decision : String
  pub decided_at : String

pub record DeletionRequest : Type 0 where
  pub id : String
  pub requested_by : String
  pub target_type : String
  pub target_id : String
  pub reason : String
  pub status : String
  pub created_at : String
  pub approvals : List DeletionApproval

pub data TargetType : Type 0 where
  user ingestion_source : TargetType

abbrev pub target_type_text : TargetType → String
target_type_text user = "user"
target_type_text ingestion_source = "ingestion_source"

pub data Decision : Type 0 where
  approve reject : Decision

abbrev pub decision_text : Decision → String
decision_text approve = "approve"
decision_text reject = "reject"

pub data OversightCall : Type 0 where
  list_deletion_requests : OversightCall
  create_deletion_request : TargetType → (target_id reason : String) → OversightCall
  investigate : (question : String) → OversightCall
  get_intrusion_stats list_whistleblower_reports : OversightCall
  get_whistleblower_report : (report_id : String) → OversightCall
  decide_deletion_request : (id : String) → Decision → OversightCall

unfoldable pub oversight_endpoint : OversightCall → Endpoint
oversight_endpoint list_deletion_requests = get_call "/v1/deletion-requests" []
oversight_endpoint (create_deletion_request target_type target_id reason) =
    body_call "POST" "/v1/deletion-requests" (
      ("target_type", str (target_type_text target_type))
      ∷ ("target_id", str target_id)
      ∷ ("reason", str reason)
      ∷ [])
oversight_endpoint (investigate question) =
    body_call "POST" "/v1/investigate" (("question", str question) ∷ [])
oversight_endpoint get_intrusion_stats = get_call "/v1/intrusion/stats" []
oversight_endpoint list_whistleblower_reports = get_call "/v1/whistleblower/reports" []
oversight_endpoint (get_whistleblower_report report_id) =
    get_call ("/v1/whistleblower/reports/" ⧺ report_id) []
oversight_endpoint (decide_deletion_request id decision) =
    body_call "POST" ("/v1/deletion-requests/" ⧺ id ⧺ "/decide")
      (("decision", str (decision_text decision)) ∷ [])

-- Coordinates are floating-point numbers, of a type that is left open.
pub record IntrusionAttempt (F : Type 0) : Type 0 where
  pub ip : Option String
  pub country : String
  pub city : Option String
  pub latitude : Option F
  pub longitude : Option F
  pub event_type : String
  pub actor_id : Option String
  pub occurred_at : String
