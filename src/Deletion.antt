-- ===== src/Deletion.antt =====
-- The page of the deletion requests, each of which four roles approve
-- (frontend/src/app/admin/deletion-requests/page.tsx).
pub mod Laws
use the_eye.Base.{
  Bool, true, false, not, ◌&&◌, ◌||◌, Option, none, some, List, [], ◌∷◌, String, ◌==◌, any,
  includes, filter, map, all, if◌then◌else◌,
}
use the_eye.Json.{Json}
use the_eye.Browser.{Browser}
use the_eye.Http.{Fetched, Failure, api_message, any_message}
use the_eye.Api.Oversight.{
  DeletionApproval, DeletionRequest, TargetType, ingestion_source, Decision, list_deletion_requests,
  create_deletion_request, decide_deletion_request,
}
use the_eye.Api.Users.{UserRead, SourceRead, list_users, list_sources}
use the_eye.Api.Call.{oversight, user, source}
use the_eye.Page.{Handlers, attempt_then_load, load}
use the_eye.Nav.{session_role, has_role_in, is_role}

abbrev pub approver_roles : List String
approver_roles =
    "chief_auditor" ∷ "compliance_officer" ∷ "security_officer" ∷ "executive_authority" ∷ []

pub record DeletionPage : Type 0 where
  pub requests : List DeletionRequest
  pub users : List UserRead
  pub sources : List SourceRead
  pub error : Option String
  pub target_type : TargetType
  pub target_id : String
  pub reason : String
  pub creating : Bool

abbrev pub initial : DeletionPage
initial = record {
  requests = [];
  users = [];
  sources = [];
  error = none;
  target_type = ingestion_source;
  target_id = "";
  reason = "";
  creating = false;
}

abbrev pub is_approver : Option Json → Bool
is_approver session = has_role_in approver_roles (session_role session)

-- Anyone else is told that the page is not for them.
abbrev pub may_open : Option Json → Bool
may_open session = is_role "admin" (session_role session) || is_approver session

-- The roles whose approval a request has: the ticks that the page shows.
unfoldable pub approved_by : DeletionRequest → String → Bool
approved_by r role =
    includes (map (λ a. a.approver_role) (filter (λ a. a.decision == "approve") r.approvals)) role

abbrev pub voted_as : Option String → DeletionRequest → Bool
voted_as none r = false
voted_as (some role) r =
    if role == "" then false else any (λ a. a.approver_role == role) r.approvals

abbrev pub already_voted : Option Json → DeletionRequest → Bool
already_voted session r = voted_as (session_role session) r

-- Whether the two buttons of a request are shown.
unfoldable pub can_vote : Option Json → DeletionRequest → Bool
can_vote session r = r.status == "pending" && is_approver session && not (already_voted session r)

module _ (env : Option String) where
  pub refresh : Fetched (List DeletionRequest) → DeletionPage → Browser → DeletionPage × Browser
  refresh =
      load env (oversight list_deletion_requests) (λ rs p. record p { requests = rs })
        λ f p. record p { error = some (any_message "Failed to load requests" f) }

  -- What the page asks for once it may show; of the other two lists an error is ignored.
  pub on_ready :
      Option Json
      → Fetched (List DeletionRequest)
      → Fetched (List UserRead)
      → Fetched (List SourceRead)
      → DeletionPage
      → Browser
      → DeletionPage × Browser
  unfolding refresh
  on_ready session list users sources page b =
      let (p₁, b₁) = refresh list page b in
      let (p₂, b₂) =
        load env (user list_users) (λ us p. record p { users = us }) (λ _ p. p) users p₁ b₁ in
      let all_lists =
        load env (source list_sources) (λ ss p. record p { sources = ss }) (λ _ p. p) sources p₂
          b₂ in
      if is_role "admin" (session_role session) then all_lists else (p₁, b₁)

  pub handle_create :
      Fetched DeletionRequest
      → Fetched (List DeletionRequest)
      → DeletionPage
      → Browser
      → DeletionPage × Browser
  handle_create reply list page =
      attempt_then_load env
        (oversight (create_deletion_request page.target_type page.target_id page.reason))
        (record {
          done = λ p. record p { target_id = ""; reason = "" };
          failed = λ f p. record p { error = some (api_message "Failed to create request" f) };
          finally = λ p. record p { creating = false };
        })
        reply (refresh list) (record page { creating = true; error = none })

  pub handle_decide :
      String
      → Decision
      → Fetched DeletionRequest
      → Fetched (List DeletionRequest)
      → DeletionPage
      → Browser
      → DeletionPage × Browser
  handle_decide id decision reply list =
      attempt_then_load env (oversight (decide_deletion_request id decision))
        (record {
          done = λ p. p;
          failed = λ f p. record p { error = some (api_message "Failed to record decision" f) };
          finally = λ p. p;
        })
        reply (refresh list)
