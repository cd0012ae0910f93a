-- ===== src/Staff/Api/Call.antt =====
-- Every call of the staff portal (staff-portal/src/lib/api-client.ts).
use the_eye.Base.{Option, String}
use the_eye.Browser.{Browser, send}
use the_eye.Http.{Endpoint, Fetched, Outcome, wire}
use the_eye.Staff.Client.{staff_request}
use the_eye.Staff.Api.Access.{AccessCall, access_endpoint}
use the_eye.Staff.Api.Tenants.{TenantCall, tenant_endpoint}
use the_eye.Staff.Api.Plans.{PlanCall, plan_endpoint}
use the_eye.Staff.Api.Notices.{NoticeCall, notice_endpoint}

pub data StaffCall : Type 0 where
  access : AccessCall → StaffCall
  tenants : TenantCall → StaffCall
  plans : PlanCall → StaffCall
  notices : NoticeCall → StaffCall

unfoldable pub staff_endpoint : StaffCall → Endpoint
unfolding access_endpoint tenant_endpoint plan_endpoint notice_endpoint
staff_endpoint (access c) = access_endpoint c
staff_endpoint (tenants c) = tenant_endpoint c
staff_endpoint (plans c) = plan_endpoint c
staff_endpoint (notices c) = notice_endpoint c

-- The browser once the request of the call is sent.
abbrev pub staff_asked : Option String → StaffCall → Browser → Browser
staff_asked env c b = send (wire env (staff_endpoint c)) b

unfoldable pub staff_perform {ℓ} :
    {T : Type ℓ} → Option String → StaffCall → Fetched T → Browser → Outcome T × Browser
staff_perform env c reply b = staff_request env (staff_endpoint c) reply b
