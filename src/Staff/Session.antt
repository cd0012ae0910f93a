-- ===== src/Staff/Session.antt =====
-- The session of the staff portal (staff-portal/src/lib/auth.ts), the gate of its pages
-- (staff-portal/src/lib/useRequireAuth.ts), and what a page may rely on.
pub mod Gate
pub mod Laws
use the_eye.Base.{Bool, true, false, Option, none, some, List, [], ◌∷◌, String, ◌==◌, if◌then◌else◌}
use the_eye.Json.{Json, flat}
use the_eye.Json.Codec.{Codec}
use the_eye.Browser.{Browser, get_item, set_item, remove_item, navigate}
use the_eye.Session.{role_of, read_session}

abbrev pub staff_key : String
staff_key = "the_eye_staff_session"

pub record StaffSession : Type 0 where
  pub username : String
  pub role : String

abbrev pub staff_properties : StaffSession → List (String × Option String)
staff_properties s = ("username", some s.username) ∷ ("role", some s.role) ∷ []

abbrev pub staff_json : StaffSession → Json
staff_json s = flat (staff_properties s)

-- v.role === "super_admin"
abbrev pub is_super_admin_role : Option String → Bool
is_super_admin_role none = false
is_super_admin_role (some r) = r == "super_admin"

abbrev pub is_super_admin : Json → Bool
is_super_admin v = is_super_admin_role (role_of v)

module _ (c : Codec) where
  unfoldable pub get_staff_session : Browser → Option Json
  unfolding get_item read_session
  get_staff_session b = if b.window then read_session c (get_item staff_key b) else none

  unfoldable pub set_staff_session : Json → Browser → Browser
  unfolding set_item
  set_staff_session v b = set_item staff_key (c.stringify v) b

  unfoldable pub is_staff : Browser → Bool
  unfolding get_staff_session
  is_staff b = elim (get_staff_session b) [ none ↦ false | some v ↦ is_super_admin v ]

unfoldable pub clear_staff_session : Browser → Browser
unfolding remove_item
clear_staff_session b = remove_item staff_key b
