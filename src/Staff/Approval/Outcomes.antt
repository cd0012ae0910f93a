-- ===== src/Staff/Approval/Outcomes.antt =====
-- What the dialog of a decision does, on every branch, to its own state, the queue, the requests and
-- the two sessions.
use the_eye.Staff.Client.{staff_request}
use the_eye.Base.{
  ap, ◌∙◌, Bool, true, false, ◌&&◌, ◌||◌, Option, none, List, ◌∷◌, String, ◌≡◌, refl, arith,
  Bool-cases, inl, inr, if◌then◌else◌,
}
use the_eye.Json.Codec.{Codec}
use the_eye.Browser.{Browser, Wire}
use the_eye.Session.{get_session}
use the_eye.Http.{Fetched, Outcome, value, no_content, raised, outcome, wire, is_unauthorised}
use the_eye.Page.{succeeded}
use the_eye.Staff.Session.{is_staff}
use the_eye.Staff.Client.Laws.{staff_request_lem}
use the_eye.Staff.Api.Tenants.{DeletionQueueItem, TenantCall, get_deletion_queue}
use the_eye.Staff.Api.Call.{tenants, staff_endpoint, staff_perform}
use the_eye.Staff.Approval.{
  ModalMode, SecurityModal, QueuePage, can_submit, decision_call, loaded_queue, load_queue, decided,
  handle_done, submit_decision,
}

-- The list of an answer, or the one there was.
abbrev pub queue_after :
    Outcome (List DeletionQueueItem) → List DeletionQueueItem → List DeletionQueueItem
queue_after (value items) old = items
queue_after _ old = old

abbrev pub tenant_wire : Option String → TenantCall → Wire
tenant_wire env call = wire env (staff_endpoint (tenants call))

loaded_queue_lem :
    (o : Outcome (List DeletionQueueItem)) (page : QueuePage)
    → ((loaded_queue o page).modal ≡ page.modal)
      × ((loaded_queue o page).queue ≡ queue_after o page.queue)
unfolding loaded_queue
loaded_queue_lem (value items) page = (refl, refl)
loaded_queue_lem no_content page = (refl, refl)
loaded_queue_lem (raised f) page = (refl, refl)

signed_out :
    (by_list by_reply before : Bool) {between : Bool}
    → between ≡ (if by_reply then false else before)
    → (if by_list then false else between) ≡ (if by_reply || by_list then false else before)
signed_out by_list by_reply before {between} h = ground (arith, h)

module _ (env : Option String) (c : Codec) (list : Fetched (List DeletionQueueItem)) where
  load_queue_lem :
      (page : QueuePage) (b : Browser)
      → ((load_queue env list page b).0.modal ≡ page.modal)
        × ((load_queue env list page b).0.queue ≡ queue_after (outcome list) page.queue)
        × ((load_queue env list page b).1.sent ≡ tenant_wire env get_deletion_queue ∷ b.sent)
        × (is_staff c (load_queue env list page b).1
            ≡ (if is_unauthorised list then false else is_staff c b))
        × (get_session c (load_queue env list page b).1 ≡ get_session c b)
  unfolding load_queue staff_perform staff_request outcome
  load_queue_lem page b =
      let (modal, queue) = loaded_queue_lem (outcome list) page in
      let asked = staff_request_lem env (staff_endpoint (tenants get_deletion_queue)) list b c in
      (modal, queue, asked.0, asked.2, asked.3)

  module _ {ℓ} {T : Type ℓ} where
    decided_lem :
        (o : Outcome T) (m : SecurityModal) (page : QueuePage) (b : Browser)
        → (let after = decided env o list m page b in
            (after.0.busy ≡ false)
            × (after.1.modal ≡ (if succeeded o then none else page.modal))
            × (after.1.queue
                ≡ (if succeeded o then queue_after (outcome list) page.queue else page.queue))
            × (after.2.sent
                ≡ (if succeeded o then tenant_wire env get_deletion_queue ∷ b.sent else b.sent))
            × (is_staff c after.2
                ≡ (if succeeded o && is_unauthorised list then false else is_staff c b))
            × (get_session c after.2 ≡ get_session c b))
    unfolding decided handle_done
    decided_lem (value v) m page b =
        let shown = load_queue_lem (record page { modal = none }) b in
        (refl, shown.0, shown.1, shown.2, shown.3, shown.4)
    decided_lem no_content m page b =
        let shown = load_queue_lem (record page { modal = none }) b in
        (refl, shown.0, shown.1, shown.2, shown.3, shown.4)
    decided_lem (raised f) m page b = (refl, refl, refl, refl, refl, refl)

    -- For any dialog, decision and answers: the dialog closes exactly where it may be submitted and
    -- the server accepts, with content or without; then, and only then, the queue is asked for after
    -- the decision, and the list that comes is shown, while without one the queue stays. Where the
    -- dialog may not be submitted nothing is sent, and elsewhere it ends not busy. Whoever was signed
    -- in stays so unless one of the answers that came is 401, and the session of the dashboard is
    -- untouched.
    pub submit_decision_lem :
        (item : DeletionQueueItem) (mode : ModalMode) (reply : Fetched T) (m : SecurityModal)
        (page : QueuePage) (b : Browser)
        → (let after = submit_decision env item mode reply list m page b in
            let accepted = can_submit m && succeeded (outcome reply) in
            (after.0.busy ≡ (if can_submit m then false else m.busy))
            × (after.1.modal ≡ (if accepted then none else page.modal))
            × (after.1.queue
                ≡ (if accepted then queue_after (outcome list) page.queue else page.queue))
            × (after.2.sent ≡ (
                if accepted
                then tenant_wire env get_deletion_queue
                  ∷ tenant_wire env (decision_call item mode m)
                  ∷ b.sent
                else if can_submit m
                then tenant_wire env (decision_call item mode m) ∷ b.sent
                else b.sent))
            × (is_staff c after.2 ≡ (
                if (can_submit m && is_unauthorised reply) || (accepted && is_unauthorised list)
                then false
                else is_staff c b))
            × (get_session c after.2 ≡ get_session c b))
    unfolding submit_decision staff_perform staff_request outcome
    submit_decision_lem item mode reply m page b = elim (Bool-cases (can_submit m)) [
      | inr refused ↦ rw refused (refl, refl, refl, refl, refl, refl)
      | inl ready ↦
          let e = staff_endpoint (tenants (decision_call item mode m)) in
          let asked = staff_request_lem env e reply b c in
          let done =
            decided_lem (outcome reply) (record m { busy = true; err = none }) page
              (staff_request env e reply b).1 in
          rw ready (
            done.0,
            done.1,
            done.2,
            done.3
                ∙ ap
                    (λ sent.
                      if succeeded (outcome reply)
                      then tenant_wire env get_deletion_queue ∷ sent
                      else sent)
                    asked.0,
            done.4
                ∙ signed_out (succeeded (outcome reply) && is_unauthorised list)
                    (is_unauthorised reply) (is_staff c b) asked.2,
            done.5 ∙ asked.3,
          )
    ]
