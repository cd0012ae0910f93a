-- ===== src/Staff/Nav.antt =====
-- The sidebar of the staff portal (staff-portal/src/components/Sidebar.tsx) with its toggle of the
-- theme (staff-portal/src/components/ThemeToggle.tsx).
pub mod Laws
use the_eye.Base.{
  Bool, true, false, not, ◌||◌, Option, none, some, List, [], ◌∷◌, String, ◌⧺◌, ◌==◌, filter,
  if◌then◌else◌,
}
use the_eye.Text.Paths.{is_at}
use the_eye.Browser.{Browser, get_item, set_item, navigate}
use the_eye.Http.{Fetched}
use the_eye.Staff.Session.{clear_staff_session}
use the_eye.Staff.Api.Access.{logout}
use the_eye.Staff.Api.Call.{access, staff_perform}

pub record NavItem : Type 0 where
  pub label : String
  pub href : String

pub record NavGroup : Type 0 where
  pub title : String
  pub items : List NavItem

abbrev pub item : String → String → NavItem
item label href = record { label = label; href = href }

abbrev pub group : String → List NavItem → NavGroup
group title items = record { title = title; items = items }

abbrev pub groups : List NavGroup
groups =
    group "Overview" (item "Dashboard" "/dashboard" ∷ [])
    ∷ group "Clients" (
        item "Tenants" "/tenants"
        ∷ item "All Users" "/users"
        ∷ item "API Keys" "/api-keys"
        ∷ item "Deletion Requests" "/deletion-requests"
        ∷ [])
    ∷ group "Finance" (
        item "Billing" "/billing"
        ∷ item "Subscriptions" "/subscriptions"
        ∷ item "Plans" "/plans"
        ∷ item "Revenue" "/revenue"
        ∷ [])
    ∷ group "People" (item "Staff Admins" "/staff-admins" ∷ [])
    ∷ group "Intelligence" (item "Analytics" "/analytics" ∷ [])
    ∷ group "Communications" (item "Announcements" "/announcements" ∷ [])
    ∷ group "Support" (item "Client Support" "/support" ∷ [])
    ∷ group "Compliance" (item "Audit Log" "/audit" ∷ [])
    ∷ group "System" (item "Health" "/health" ∷ item "Settings" "/settings" ∷ [])
    ∷ []

-- pathname === item.href || pathname.startsWith(item.href + "/")
unfoldable pub is_active : String → NavItem → Bool
is_active pathname i = is_at pathname i.href

-- An error of the call is ignored.
unfoldable pub handle_sign_out : Option String → Fetched (Unit {0}) → Browser → Browser
unfolding clear_staff_session navigate
handle_sign_out env reply b =
    let (_, after) = staff_perform env (access logout) reply b in
    navigate "/login" (clear_staff_session after)

-- saved !== "light"
abbrev not_light : Option String → Bool
not_light none = true
not_light (some s) = not (s == "light")

-- The first effect of the toggle, and its click: whether it shows dark, and the browser.
unfoldable pub mount_toggle : Browser → Bool × Browser
unfolding get_item
mount_toggle b =
    let is_dark = not_light (get_item "staff_theme" b) in (is_dark, record b { dark = is_dark })

unfoldable pub toggle_theme : Bool → Browser → Bool × Browser
unfolding set_item
toggle_theme dark b =
    let next = not dark in
    (next, set_item "staff_theme" (if next then "dark" else "light") (record b { dark = next }))
