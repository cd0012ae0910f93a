-- ===== src/Api/Activity.antt =====
-- Agent machines, file and USB activity, and the audit trail.
pub mod Laws
use the_eye.Base.{ℕ, Bool, Option, [], ◌∷◌, String}
use the_eye.Base.Dict.{Dict}
use the_eye.Query.{text, text_param, number_param, set_truthy}
use the_eye.Http.{Endpoint, get_call}

pub record AgentMachine : Type 0 where
  pub id : String
  pub machine_id : String
  pub hostname : String
  pub os : Option String
  pub agent_version : Option String
  pub agent_label : Option String
  pub ip_address : Option String
  pub last_heartbeat_at : Option String
  pub registered_at : String
  pub is_online : Bool

pub record FileActivityParams : Type 0 where
  pub actor_id : Option String
  pub host : Option String
  pub operation : Option String
  pub limit : Option ℕ
  pub offset : Option ℕ

unfoldable pub file_activity_query : FileActivityParams → Dict String
unfolding set_truthy
file_activity_query p = set_truthy "offset" (number_param p.offset) (
    set_truthy "limit" (number_param p.limit) (
      set_truthy "operation" (text_param p.operation)
        (set_truthy "host" (text_param p.host) (set_truthy "actor_id" (text_param p.actor_id) []))))

pub record UsbParams : Type 0 where
  pub host : Option String
  pub actor_id : Option String
  pub limit : Option ℕ

unfoldable pub usb_query : UsbParams → Dict String
unfolding set_truthy
usb_query p =
    set_truthy "limit" (number_param p.limit)
      (set_truthy "actor_id" (text_param p.actor_id) (set_truthy "host" (text_param p.host) []))

pub record AuditTrailParams : Type 0 where
  pub subject : String
  pub machine : Option String
  pub from : Option String
  pub to : Option String
  pub limit : Option ℕ

-- The subject is there from the start, also where it is the empty text.
unfoldable pub audit_trail_query : AuditTrailParams → Dict String
unfolding set_truthy
audit_trail_query p = set_truthy "limit" (number_param p.limit) (
    set_truthy "to" (text_param p.to) (
      set_truthy "from" (text_param p.from)
        (set_truthy "machine" (text_param p.machine) (("subject", p.subject) ∷ []))))

pub data ActivityCall : Type 0 where
  list_machines : ActivityCall
  get_file_activity : FileActivityParams → ActivityCall
  get_usb_events : UsbParams → ActivityCall
  get_audit_trail : AuditTrailParams → ActivityCall

unfoldable pub activity_endpoint : ActivityCall → Endpoint
activity_endpoint list_machines = get_call "/v1/agent/machines-portal" []
activity_endpoint (get_file_activity params) =
    get_call "/v1/file-activity" (file_activity_query params)
activity_endpoint (get_usb_events params) = get_call "/v1/usb-events" (usb_query params)
activity_endpoint (get_audit_trail params) = get_call "/v1/audit-trail" (audit_trail_query params)
