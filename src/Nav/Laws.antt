-- ===== src/Nav/Laws.antt =====
-- Who sees which administration link, and what signing out leaves.
use the_eye.Base.{arith, Bool, Option, none, String, ◌∷◌, ◌≡◌, refl, includes, ◌∙◌}
use the_eye.Json.{Json}
use the_eye.Json.Codec.{Codec}
use the_eye.Browser.{Browser}
use the_eye.Session.{get_session, clear_session}
use the_eye.Session.Laws.{get_session-clear_session, get_session-navigate}
use the_eye.Client.{react}
use the_eye.Http.{Fetched}
use the_eye.Api.Auth.{logout}
use the_eye.Api.Call.{auth, asked}
use the_eye.Api.Call.Laws.{perform_of_outcome}
use the_eye.Nav.{
  menu, admin_items, hrefs, is_role, has_role_in, approver_roles, report_reader_roles, session_role,
  handle_logout,
}

-- Whether the link is among those that are shown.
abbrev pub shows : Option Json → String → Bool
shows session href = includes (hrefs (admin_items session)) href

menu_lem :
    (a d r : Bool)
    → (includes (hrefs (menu a d r)) "/admin/sources" ≡ a)
      × (includes (hrefs (menu a d r)) "/admin/users" ≡ a)
      × (includes (hrefs (menu a d r)) "/admin/api-keys" ≡ a)
      × (includes (hrefs (menu a d r)) "/admin/machines" ≡ a)
      × (includes (hrefs (menu a d r)) "/billing" ≡ a)
      × (includes (hrefs (menu a d r)) "/settings" ≡ a)
      × (includes (hrefs (menu a d r)) "/admin/deletion-requests" ≡ d)
      × (includes (hrefs (menu a d r)) "/admin/whistleblower" ≡ r)
unfolding menu
menu_lem a d r = ground arith

-- The links to sources, users, keys, machines, billing and settings are shown exactly to an admin,
-- that to the deletion requests to an admin or an approver, that to the reports to their readers.
pub admin_items_lem :
    (session : Option Json)
    → (shows session "/admin/sources" ≡ is_role "admin" (session_role session))
      × (shows session "/admin/users" ≡ is_role "admin" (session_role session))
      × (shows session "/admin/api-keys" ≡ is_role "admin" (session_role session))
      × (shows session "/admin/machines" ≡ is_role "admin" (session_role session))
      × (shows session "/billing" ≡ is_role "admin" (session_role session))
      × (shows session "/settings" ≡ is_role "admin" (session_role session))
      × (shows session "/admin/deletion-requests"
          ≡ has_role_in approver_roles (session_role session))
      × (shows session "/admin/whistleblower"
          ≡ has_role_in report_reader_roles (session_role session))
unfolding admin_items
admin_items_lem session =
    menu_lem (is_role "admin" (session_role session))
      (has_role_in approver_roles (session_role session))
      (has_role_in report_reader_roles (session_role session))

-- After signing out no session is left and the browser is at the login page, whatever the server
-- answered, and also where it was not reached.
handle_logout_lem :
    (c : Codec) (env : Option String) (reply : Fetched (Unit {0})) (b : Browser)
    → (get_session c (handle_logout env reply b) ≡ none)
      × ((handle_logout env reply b).visited
          ≡ "/login" ∷ (react reply (asked env (auth logout) b)).visited)
unfolding handle_logout
handle_logout_lem c env reply b = rw (perform_of_outcome env (auth logout) reply b refl) (
    let after = react reply (asked env (auth logout) b) in
    (
      get_session-navigate c "/login" (clear_session after) ∙ get_session-clear_session c after,
      refl,
    ))
