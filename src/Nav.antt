-- ===== src/Nav.antt =====
-- The sidebar (frontend/src/components/Sidebar.tsx): the administration links that a session sees,
-- and signing out.
pub mod Laws
pub mod Links
use the_eye.Base.{
  Bool, true, false, Option, none, some, List, [], ◌∷◌, ◌++◌, String, ◌==◌, includes, map,
  if◌then◌else◌,
}
use the_eye.Text.Paths.{is_at}
use the_eye.Json.{Json}
use the_eye.Browser.{Browser, navigate}
use the_eye.Session.{role_of, found_in, clear_session}
use the_eye.Http.{Fetched}
use the_eye.Api.Auth.{logout}
use the_eye.Api.Call.{auth, perform}

abbrev pub approver_roles : List String
approver_roles =
    "admin" ∷ "chief_auditor" ∷ "compliance_officer" ∷ "security_officer" ∷ "executive_authority"
    ∷ []

abbrev pub report_reader_roles : List String
report_reader_roles = "admin" ∷ "investigator" ∷ []

-- The links that every session sees.
abbrev pub monitor_items : List (String × String)
monitor_items =
    ("/overview", "Overview")
    ∷ ("/events", "Events")
    ∷ ("/timeline", "Timeline")
    ∷ ("/analytics", "Analytics")
    ∷ ("/activity", "Activity")
    ∷ ("/file-activity", "File Activity")
    ∷ []

abbrev pub usb_item : String × String
usb_item = ("/file-activity?tab=usb", "USB & Devices")

abbrev pub security_items : List (String × String)
security_items =
    ("/alerts", "Alerts")
    ∷ ("/alert-rules", "Alert Rules")
    ∷ ("/intrusion-detection", "Intrusion")
    ∷ ("/users-risk", "Users & Risk")
    ∷ usb_item
    ∷ []

abbrev pub audit_items : List (String × String)
audit_items =
    ("/forensics", "Forensics")
    ∷ ("/chain", "Chain")
    ∷ ("/investigate", "Investigate")
    ∷ ("/access-log", "Access Log")
    ∷ ("/audit-trail", "Audit Trail")
    ∷ []

-- session?.role, as a text
abbrev pub session_role : Option Json → Option String
session_role none = none
session_role (some v) = role_of v

-- session?.role && ROLES.includes(session.role); the empty role is no role
abbrev pub has_role_in : List String → Option String → Bool
has_role_in roles none = false
has_role_in roles (some r) = if r == "" then false else includes roles r

abbrev pub is_role : String → Option String → Bool
is_role wanted none = false
is_role wanted (some r) = r == wanted

-- ...(condition ? [{ href, label }] : [])
abbrev pub item_if : Bool → String → String → List (String × String)
item_if true href label = (href, label) ∷ []
item_if false href label = []

-- The links by what the session may do.
unfoldable pub menu : (is_admin can_see_deletion can_see_reports : Bool) → List (String × String)
menu is_admin can_see_deletion can_see_reports =
    item_if is_admin "/admin/sources" "Sources"
    ++ (item_if is_admin "/admin/users" "Manage Users"
        ++ (item_if is_admin "/admin/api-keys" "API Keys"
            ++ (item_if is_admin "/admin/machines" "Machines"
                ++ (item_if is_admin "/billing" "Billing"
                    ++ (item_if can_see_deletion "/admin/deletion-requests" "Deletion Requests"
                        ++ (item_if can_see_reports "/admin/whistleblower" "Reports"
                            ++ item_if is_admin "/settings" "Settings"))))))

unfoldable pub admin_items : Option Json → List (String × String)
unfolding menu
admin_items session =
    let role = session_role session in
    menu (is_role "admin" role) (has_role_in approver_roles role)
      (has_role_in report_reader_roles role)

-- Every link of the sidebar, and whether one is active on a path.
unfoldable pub sidebar_items : Option Json → List (String × String)
unfolding admin_items
sidebar_items session = monitor_items ++ (security_items ++ (audit_items ++ admin_items session))

abbrev pub is_active_link : String → String × String → Bool
is_active_link pathname i = is_at pathname i.0

abbrev pub hrefs : List (String × String) → List String
hrefs items = map (λ i. i.0) items

-- An error of the call is ignored.
unfoldable pub handle_logout : Option String → Fetched (Unit {0}) → Browser → Browser
unfolding clear_session navigate
handle_logout env reply b =
    let (_, after) = perform env (auth logout) reply b in navigate "/login" (clear_session after)
