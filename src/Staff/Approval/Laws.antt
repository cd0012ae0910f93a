-- ===== src/Staff/Approval/Laws.antt =====
-- When a decision on a tenant's deletion is sent, and what a wrong password does.
use the_eye.Base.{true, false, Option, some, List, String, ◌≡◌, refl}
use the_eye.Json.Codec.{Codec}
use the_eye.Browser.{Browser}
use the_eye.Http.{Fetched, response, resolved, Settled, outcome}
use the_eye.Staff.Session.{is_staff}
use the_eye.Staff.Session.Gate.{require_staff}
use the_eye.Staff.Session.Laws.{is_staff-clear_staff_session}
use the_eye.Staff.Client.Laws.{staff_request_of_outcome}
use the_eye.Staff.Api.Tenants.{DeletionQueueItem}
use the_eye.Staff.Api.Call.{tenants, staff_asked, staff_endpoint, staff_perform}
use the_eye.Staff.Approval.{
  ModalMode, SecurityModal, QueuePage, can_submit, decision_call, submit_decision,
}

module _ {ℓ} {T : Type ℓ} (env : Option String) (item : DeletionQueueItem) (mode : ModalMode)
    (list : Fetched (List DeletionQueueItem)) (m : SecurityModal) (page : QueuePage)
    (b : Browser) where
  -- Without a password of eight code units and a reason of ten, the white space around it not
  -- counted, nothing is sent and nothing changes.
  pub submit_decision_refused :
      (reply : Fetched T)
      → can_submit m ≡ false
      → submit_decision env item mode reply list m page b ≡ (m, page, b)
  unfolding submit_decision
  submit_decision_refused reply refused = rw refused

  -- Where the dialog may be submitted, a wrong password, which the server answers with 401,
  -- leaves the dialog and the queue open with an error that asks to try again; yet nobody is
  -- signed in to the staff portal any more, and the gate of its pages is shut.
  pub submit_decision_wrong_password :
      (c : Codec) (status_text text : String) (json : Settled T)
      → can_submit m ≡ true
      → (let after =
            submit_decision env item mode
              (response 401 status_text (resolved text) json)
              list
              m
              page
              b in
          (after.0 ≡ record m { err = some "Incorrect password. Please try again."; busy = false })
          × (after.1 ≡ page)
          × (is_staff c after.2 ≡ false)
          × ((require_staff c after.2).0 ≡ false))
  unfolding submit_decision staff_perform outcome require_staff
  submit_decision_wrong_password c status_text text json ready =
      let call = tenants (decision_call item mode m) in
      rw ready (
        rw
          (staff_request_of_outcome env (staff_endpoint call)
            (response 401 status_text (resolved text) json) b refl)
          (let gone = (is_staff-clear_staff_session c (staff_asked env call b)).0 in
            (refl, refl, gone, rw gone)))
