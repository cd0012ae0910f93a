-- ===== src/Nav/Links.antt =====
-- The link that the sidebar of the dashboard shows as active.
use the_eye.Base.{◌≤◌, Bool, true, false, Option, ◌++◌, String, ◌≡◌, refl, filter, length, map}
use the_eye.Json.{Json}
use the_eye.Text.Paths.{is_spread, has_query, is_at_none, length-filter-is_at}
use the_eye.Nav.{
  monitor_items, security_items, audit_items, usb_item, menu, session_role, is_role, has_role_in,
  approver_roles, report_reader_roles, admin_items, sidebar_items, is_active_link,
}

-- Whatever the session may do, no link is another link or below another.
menu-is_spread :
    (a d r : Bool)
    → is_spread (map (λ i. i.0) (monitor_items ++ (security_items ++ (audit_items ++ menu a d r))))
      ≡ true
unfolding menu
menu-is_spread true true true = refl
menu-is_spread true true false = refl
menu-is_spread true false true = refl
menu-is_spread true false false = refl
menu-is_spread false true true = refl
menu-is_spread false true false = refl
menu-is_spread false false true = refl
menu-is_spread false false false = refl

-- For every session and every path without a query: the sidebar shows at most one of its links as
-- active, and never the one of the USB devices.
pub sidebar_items-active :
    (session : Option Json) (p : String)
    → has_query p ≡ false
    → (length (filter (is_active_link p) (sidebar_items session)) ≤ 1)
      × (is_active_link p usb_item ≡ false)
unfolding sidebar_items admin_items
sidebar_items-active session p n =
    let role = session_role session in
    (
      length-filter-is_at (λ i. i.0) p (sidebar_items session)
          (menu-is_spread (is_role "admin" role) (has_role_in approver_roles role)
            (has_role_in report_reader_roles role)),
      is_at_none p usb_item.0 n refl,
    )
