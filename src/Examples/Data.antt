-- ===== src/Examples/Data.antt =====
-- What the examples run on.
use the_eye.Base.{ℕ, true, false, Option, none, some, List, [], ◌∷◌, String}
use the_eye.Json.{obj, end}
use the_eye.Browser.{Browser}
use the_eye.Session.{Session}
use the_eye.Http.{Fetched, response, resolved, rejected}
use the_eye.Api.Events.{EventRead, authentication, failure, EventSearchParams}
use the_eye.Api.Users.{UserRead}
use the_eye.Api.Oversight.{DeletionRequest, DeletionApproval}
use the_eye.Staff.Session.{StaffSession}
use the_eye.Staff.Api.Tenants.{DeletionQueueItem}

abbrev pub env : Option String
env = some "https://api.example.org"

abbrev pub home : Browser
home = record {
  window = true;
  storage = ("the_eye_theme", "dark") ∷ [];
  visited = [];
  dark = true;
  prefers_dark = false;
  sent = [];
}

abbrev pub alice : Session
alice = record { username = "alice"; role = "admin"; tenant_id = none }

abbrev pub staff_member : StaffSession
staff_member = record { username = "sam"; role = "super_admin" }

abbrev pub client_admin : StaffSession
client_admin = record { username = "alice"; role = "admin" }

abbrev pub answered {ℓ} : {T : Type ℓ} → T → Fetched T
answered v = response 200 "OK" (resolved "") (resolved v)

abbrev pub refused {ℓ} : {T : Type ℓ} → Fetched T
refused = response 403 "Forbidden" (resolved "not allowed") (rejected "no JSON")

abbrev event_at : ℕ → String → EventRead
event_at n id = record {
  id = id;
  sequence_num = n;
  tenant_id = "t1";
  source_id = "s1";
  actor_type = "user";
  actor_id = "alice";
  actor_display_name = none;
  event_type = "login.failed";
  event_category = authentication;
  outcome = failure;
  severity = "high";
  origin_host = none;
  origin_ip = some "10.0.0.7";
  origin_application = none;
  occurred_at = "2025-01-01T00:00:00Z";
  received_at = "2025-01-01T00:00:01Z";
  target_type = none;
  target_id = none;
  change_summary = none;
  metadata = obj end;
  prev_hash = "00";
  record_hash = "01";
}

abbrev pub older : List EventRead
older = event_at 4 "e4" ∷ []

abbrev pub newer : List EventRead
newer = event_at 6 "e6" ∷ event_at 5 "e5" ∷ event_at 4 "e4" ∷ []

abbrev pub filters : EventSearchParams
filters = record {
  actor_id = some "alice";
  event_type = none;
  event_category = none;
  outcome = some "";
  q = none;
  limit = some 50;
  offset = some 0;
}

abbrev user_with : String → String → String → UserRead
user_with id username role = record {
  id = id;
  username = username;
  role = role;
  is_active = true;
  created_at = "2025-01-01";
}

abbrev pub ann : UserRead
ann = user_with "u1" "ann" "admin"

abbrev pub bob : UserRead
bob = user_with "u2" "bob" "admin"

abbrev pub vote : DeletionApproval
vote = record { approver_role = "chief_auditor"; decision = "reject"; decided_at = "2025-01-02" }

abbrev pub pending_request : DeletionRequest
pending_request = record {
  id = "d1";
  requested_by = "alice";
  target_type = "user";
  target_id = "u2";
  reason = "left the company";
  status = "pending";
  created_at = "2025-01-01";
  approvals = [];
}

abbrev pub queued : DeletionQueueItem
queued = record {
  id = "t1";
  name = "Acme";
  slug = "acme";
  deletion_requested_at = "2025-01-01";
  deletion_reason = none;
  scheduled_deletion_at = none;
  user_count = 3;
  contact_email = none;
}
