-- ===== src/Deletion/Laws.antt =====
-- Who may vote on a deletion request, and how often.
use the_eye.Base.{
  subst, Bool-cases, inl, inr, Bool, not, ◌&&◌, ◌||◌, Option, none, some, List, [], ◌∷◌, ◌++◌,
  String, ◌≡◌, refl, sym, ◌∙◌, arith, ◌==◌, eq_iff, any,
}
use the_eye.Json.{Json}
use the_eye.Browser.{Browser}
use the_eye.Client.{react}
use the_eye.Http.{Fetched, value, raised, Failure, api_message, outcome}
use the_eye.Api.Oversight.{
  DeletionApproval, DeletionRequest, Decision, list_deletion_requests, decide_deletion_request,
}
use the_eye.Api.Call.{oversight, asked}
use the_eye.Page.Laws.{attempt_then_load_of_value, attempt_then_load_of_raised, load_of_value}
use the_eye.Nav
use the_eye.Nav.{session_role, has_role_in, is_role}
use the_eye.Nav.Laws.{shows, admin_items_lem}
use the_eye.Deletion.{
  voted_as, DeletionPage, approver_roles, may_open, can_vote, handle_decide, refresh,
}

may_open_role :
    (role : Option String)
    → (is_role "admin" role || has_role_in approver_roles role)
      ≡ has_role_in Nav.approver_roles role
may_open_role none = refl
may_open_role (some r) = elim (Bool-cases (r == "admin")) [
  | inl admin ↦
      subst
        (λ t.
          (is_role "admin" (some t) || has_role_in approver_roles (some t))
          ≡ has_role_in Nav.approver_roles (some t))
        (sym ((eq_iff r "admin").0 admin)) refl
  | inr other ↦ ground (arith, other, eq_iff r "admin", eq_iff "admin" r)
]

-- The page opens exactly to those to whom the sidebar shows its link.
pub may_open-sidebar :
    (session : Option Json) → may_open session ≡ shows session "/admin/deletion-requests"
may_open-sidebar session = may_open_role (session_role session) ∙ sym (admin_items_lem session).6

any-insert :
    (p : DeletionApproval → Bool) (before after : List DeletionApproval) (a : DeletionApproval)
    → any p (before ++ a ∷ after) ≡ (p a || any p (before ++ after))
any-insert p [] after a = refl
any-insert p (x ∷ before) after a = ground (arith, any-insert p before after a)

any-voted :
    (role : String) (before after : List DeletionApproval) (a : DeletionApproval)
    → any (λ v. v.approver_role == role) (before ++ a ∷ after)
      ≡ (role == a.approver_role || any (λ v. v.approver_role == role) (before ++ after))
any-voted role before after a =
    rw (any-insert (λ v. v.approver_role == role) before after a)
      (ground (arith, eq_iff a.approver_role role, eq_iff role a.approver_role))

votes_of_role :
    (status : Bool) (role : Option String) (r : DeletionRequest)
    (before after : List DeletionApproval) (a : DeletionApproval)
    → (status
        && has_role_in approver_roles role
        && not (voted_as role (record r { approvals = before ++ a ∷ after })))
      ≡ (not (is_role a.approver_role role)
          && (status
              && has_role_in approver_roles role
              && not (voted_as role (record r { approvals = before ++ after }))))
votes_of_role status none r before after a = ground arith
votes_of_role status (some role) r before after a = ground (arith, any-voted role before after a)

-- A vote for or against, wherever it stands among those of a request: a session of its role is
-- offered no further vote on the request, whatever its status, and to any other session the vote
-- makes no difference.
pub can_vote_once :
    (session : Option Json) (r : DeletionRequest) (before after : List DeletionApproval)
    (a : DeletionApproval)
    → can_vote session (record r { approvals = before ++ a ∷ after }) ≡ (
        not (is_role a.approver_role (session_role session))
        && can_vote session (record r { approvals = before ++ after }))
unfolding can_vote
can_vote_once session r before after a =
    votes_of_role (r.status == "pending") (session_role session) r before after a

module _ (env : Option String) (id : String) (decision : Decision) (reply : Fetched DeletionRequest)
    (list : Fetched (List DeletionRequest)) (page : DeletionPage) (b : Browser) where
  -- If the server records a decision and then answers with the list, the two calls are sent in
  -- this order, the list is shown, and nothing else on the page changes.
  pub handle_decide_success :
      {r : DeletionRequest} {rs : List DeletionRequest}
      → outcome reply ≡ value r
      → outcome list ≡ value rs
      → handle_decide env id decision reply list page b ≡ (
        record page { requests = rs },
        asked env
            (oversight list_deletion_requests)
            (asked env (oversight (decide_deletion_request id decision)) b),
      )
  unfolding handle_decide refresh
  handle_decide_success h k =
      attempt_then_load_of_value env (oversight (decide_deletion_request id decision)) reply page b
        _ (refresh env list) h
      ∙ load_of_value env (oversight list_deletion_requests) list page
          (asked env (oversight (decide_deletion_request id decision)) b) _ _ k

  -- A decision that is refused is reported, and the list that is shown stays as it was.
  pub handle_decide_failure :
      {f : Failure}
      → outcome reply ≡ raised f
      → handle_decide env id decision reply list page b ≡ (
        record page { error = some (api_message "Failed to record decision" f) },
        react reply (asked env (oversight (decide_deletion_request id decision)) b),
      )
  unfolding handle_decide
  handle_decide_failure h =
      attempt_then_load_of_raised env (oversight (decide_deletion_request id decision)) reply page b
        _ (refresh env list) h
