-- ===== src/Session.antt =====
-- The session marker of the dashboard (frontend/src/lib/auth.ts), kept in `localStorage`. A stored
-- value is any JSON, since `JSON.parse(raw) as Session` checks nothing.
pub mod Laws
pub mod Guard
use the_eye.Base.{
  Bool, true, false, Option, none, some, List, [], ◌∷◌, String, ◌==◌, includes, is_some,
  if◌then◌else◌,
}
use the_eye.Json.{Json, null, flat, property, as_text}
use the_eye.Json.Codec.{Codec}
use the_eye.Browser.{Browser, get_item, set_item, remove_item}

abbrev pub session_key : String
session_key = "the_eye_session"

pub record Session : Type 0 where
  pub username : String
  pub role : String
  pub tenant_id : Option String

-- The object that the type describes.
abbrev pub session_properties : Session → List (String × Option String)
session_properties s =
    ("username", some s.username) ∷ ("role", some s.role) ∷ ("tenant_id", s.tenant_id) ∷ []

abbrev pub session_json : Session → Json
session_json s = flat (session_properties s)

-- `null` is no session.
abbrev pub not_null : Option Json → Option Json
not_null (some null) = none
not_null v = v

-- `session.role`, where it is a text
abbrev pub role_of : Json → Option String
role_of v = as_text (property "role" v)

abbrev pub found_in : List String → Option String → Bool
found_in roles none = false
found_in roles (some r) = includes roles r

module _ (c : Codec) where
  unfoldable pub read_session : Option String → Option Json
  read_session none = none
  read_session (some raw) = if raw == "" then none else not_null (c.parse raw)

  unfoldable pub get_session : Browser → Option Json
  unfolding get_item read_session
  get_session b = if b.window then read_session (get_item session_key b) else none

  unfoldable pub set_session : Json → Browser → Browser
  unfolding set_item
  set_session v b = set_item session_key (c.stringify v) b

  unfoldable pub is_logged_in : Browser → Bool
  unfolding get_session
  is_logged_in b = is_some (get_session b)

  unfoldable pub has_role : List String → Browser → Bool
  unfolding get_session
  has_role roles b = elim (get_session b) [ none ↦ false | some v ↦ found_in roles (role_of v) ]

unfoldable pub clear_session : Browser → Browser
unfolding remove_item
clear_session b = remove_item session_key b
