-- ===== src/Examples/Portal.antt =====
-- The staff portal.
use the_eye.Base.{false, none, some, [], ◌∷◌, String, ◌≡◌, refl}
use the_eye.Json.Sample.{sample_codec}
use the_eye.Http.{Fetched, response, resolved, rejected}
use the_eye.Staff.Session.{is_staff}
use the_eye.Staff.Session.Gate.{require_staff}
use the_eye.Staff.Api.Tenants.{get_deletion_queue, TenantCall, approve_tenant_deletion}
use the_eye.Staff.Approval.{approve, SecurityModal, QueuePage, submit_decision}
use the_eye.Staff.Approval.Laws.{submit_decision_wrong_password}
use the_eye.Staff.Approval.Outcomes.{tenant_wire, submit_decision_lem}
use the_eye.Session.{get_session}
use the_eye.Examples.Data.{env, home, answered, queued}

abbrev dialog : SecurityModal
dialog = record {
  password = "correct horse";
  reason = "asked for by the owner";
  schedule_date = "";
  busy = false;
  err = none;
}

abbrev queue_page : QueuePage
queue_page = record {
  queue = queued ∷ [];
  loading = false;
  error = none;
  modal = some (queued, approve);
}

-- An answer without content.
abbrev deleted : Fetched String
deleted = response 204 "No Content" (resolved "") (rejected "no JSON")

abbrev approval : TenantCall
approval = approve_tenant_deletion "t1" "correct horse" "asked for by the owner" none

submit_decision_lem_example :
    let after = submit_decision env queued approve deleted (answered []) dialog queue_page home in
    (after.0.busy ≡ false)
    × (after.1.modal ≡ none)
    × (after.1.queue ≡ [])
    × (after.2.sent ≡ tenant_wire env get_deletion_queue ∷ tenant_wire env approval ∷ [])
    × (is_staff sample_codec after.2 ≡ is_staff sample_codec home)
    × (get_session sample_codec after.2 ≡ get_session sample_codec home)
unfolding the_eye.Staff.Approval.can_submit the_eye.Http.outcome
    the_eye.Staff.Approval.decision_call
submit_decision_lem_example =
    submit_decision_lem env sample_codec (answered []) queued approve deleted dialog queue_page home

abbrev wrong_password : Fetched String
wrong_password = response 401 "Unauthorized" (resolved "Incorrect password.") (rejected "no JSON")

submit_decision_wrong_password_example :
    let after =
      submit_decision env queued approve wrong_password (answered []) dialog queue_page home in
    (after.0 ≡ record dialog { err = some "Incorrect password. Please try again."; busy = false })
    × (after.1 ≡ queue_page)
    × (is_staff sample_codec after.2 ≡ false)
    × ((require_staff sample_codec after.2).0 ≡ false)
unfolding the_eye.Staff.Approval.can_submit
submit_decision_wrong_password_example =
    submit_decision_wrong_password env queued approve (answered []) dialog queue_page home
      sample_codec "Unauthorized" "Incorrect password." (rejected "no JSON") refl
