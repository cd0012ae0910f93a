-- ===== src/Staff/Approval.antt =====
-- The queue of the tenants that asked to be deleted, and the dialog in which a staff admin confirms
-- a decision with a password and a reason (staff-portal/src/app/deletion-requests/page.tsx).
pub mod Laws
pub mod Outcomes
pub mod Offers
use the_eye.Base.{
  ℕ, Bool, true, false, not, ◌&&◌, Option, none, some, List, String, ◌==◌, leb, eqb, if◌then◌else◌,
}
use the_eye.Text.{text_length, trim}
use the_eye.Browser.{Browser}
use the_eye.Http.{
  Fetched, Outcome, value, no_content, raised, Failure, api_error, other_error, api_message,
}
use the_eye.Staff.Api.Tenants.{
  DeletionQueueItem, TenantCall, get_deletion_queue, approve_tenant_deletion,
  reject_tenant_deletion, execute_scheduled_deletion,
}
use the_eye.Staff.Api.Call.{tenants, staff_perform}

pub data ModalMode : Type 0 where
  approve reject execute : ModalMode

pub record SecurityModal : Type 0 where
  pub password : String
  pub reason : String
  pub schedule_date : String
  pub busy : Bool
  pub err : Option String

pub record QueuePage : Type 0 where
  pub queue : List DeletionQueueItem
  pub loading : Bool
  pub error : Option String
  pub modal : Option (DeletionQueueItem × ModalMode)

unfoldable pub can_submit : SecurityModal → Bool
unfolding trim
can_submit m = leb 8 (text_length m.password) && leb 10 (text_length (trim m.reason))

-- scheduleDate || undefined
abbrev date_or_none : String → Option String
date_or_none s = if s == "" then none else some s

unfoldable pub decision_call : DeletionQueueItem → ModalMode → SecurityModal → TenantCall
decision_call item approve m =
    approve_tenant_deletion item.id m.password m.reason (date_or_none m.schedule_date)
decision_call item reject m = reject_tenant_deletion item.id m.password m.reason
decision_call item execute m = execute_scheduled_deletion item.id m.password m.reason

abbrev pub modal_error : Failure → String
modal_error (api_error status m) =
    if eqb status 401 then "Incorrect password. Please try again." else m
modal_error (other_error m) = "Action failed."

pub loaded_queue : Outcome (List DeletionQueueItem) → QueuePage → QueuePage
loaded_queue (value items) page = record page { queue = items; loading = false }
loaded_queue no_content page = record page { loading = false }
loaded_queue (raised f) page = record page {
  error = some (api_message "Failed to load deletion queue." f);
  loading = false;
}

module _ (env : Option String) where
  pub load_queue : Fetched (List DeletionQueueItem) → QueuePage → Browser → QueuePage × Browser
  unfolding loaded_queue
  load_queue list page b =
      let (result, after) = staff_perform env (tenants get_deletion_queue) list b in
      (loaded_queue result page, after)

  -- Closes the dialog and loads the queue again.
  pub handle_done : Fetched (List DeletionQueueItem) → QueuePage → Browser → QueuePage × Browser
  unfolding load_queue
  handle_done list page b = load_queue list (record page { modal = none }) b

  pub decided {ℓ} :
      {T : Type ℓ}
      → Outcome T
      → Fetched (List DeletionQueueItem)
      → SecurityModal
      → QueuePage
      → Browser
      → SecurityModal × QueuePage × Browser
  unfolding handle_done
  decided (raised f) list m page b =
      (record m { err = some (modal_error f); busy = false }, page, b)
  decided _ list m page b =
      let (shown, after) = handle_done list page b in (record m { busy = false }, shown, after)

  pub submit_decision {ℓ} :
      {T : Type ℓ}
      → DeletionQueueItem
      → ModalMode
      → Fetched T
      → Fetched (List DeletionQueueItem)
      → SecurityModal
      → QueuePage
      → Browser
      → SecurityModal × QueuePage × Browser
  unfolding decided
  submit_decision item mode reply list m page b =
      let (result, after) = staff_perform env (tenants (decision_call item mode m)) reply b in
      if not (can_submit m)
      then (m, page, b)
      else decided result list (record m { busy = true; err = none }) page after
