-- ===== src/Session/Laws.antt =====
-- Reading back what auth.ts of the dashboard wrote, and what clearing it does.
use the_eye.Base.{
  true, false, Option, none, some, List, String, ◌≡◌, refl, ◌==◌, eq_iff, arith, includes, inl, inr,
  ap, sym, ◌∙◌, Bool-cases,
}
use the_eye.Base.Dict.{lookup-insert, lookup-remove}
use the_eye.Json.{property, flat}
use the_eye.Json.Codec.{Codec, has_distinct_keys}
use the_eye.Browser.{Browser, get_item, navigate}
use the_eye.Session.{
  Session, session_key, session_properties, session_json, read_session, get_session, set_session,
  clear_session, is_logged_in, has_role,
}

module _ (c : Codec) (ps : List (String × Option String))
    (distinct : has_distinct_keys ps ≡ true) where
  -- A written object is not the empty text, since that does not parse.
  stringify_nonempty : (c.stringify (flat ps) == "") ≡ false
  stringify_nonempty = elim (Bool-cases (c.stringify (flat ps) == "")) [
    | inl e ↦
        let same = ap c.parse ((eq_iff (c.stringify (flat ps)) "").0 e) in
        cc (sym same ∙ c.parse-stringify ps distinct, c.parse_empty)
    | inr e ↦ e
  ]

  pub read_session-stringify : read_session c (some (c.stringify (flat ps))) ≡ some (flat ps)
  unfolding read_session
  read_session-stringify = rw stringify_nonempty (rw (c.parse-stringify ps distinct))

-- In a browser window, a session that is set is read back as it was, whatever was stored before.
pub get_session-set_session :
    (c : Codec) (s : Session) (b : Browser)
    → b.window ≡ true
    → get_session c (set_session c (session_json s) b) ≡ some (session_json s)
unfolding get_session set_session
get_session-set_session c s b w =
    rw (w, lookup-insert) (read_session-stringify c (session_properties s) refl)

-- In a browser window, after a session is set the user has one of the given roles exactly when the
-- session's role is among them.
pub has_role-set_session :
    (c : Codec) (s : Session) (roles : List String) (b : Browser)
    → b.window ≡ true
    → has_role c roles (set_session c (session_json s) b) ≡ includes roles s.role
unfolding has_role property
has_role-set_session c s roles b w = rw (get_session-set_session c s b w, has_role) refl

-- Once the session is cleared none is read.
pub get_session-clear_session : (c : Codec) (b : Browser) → get_session c (clear_session b) ≡ none
unfolding get_session clear_session read_session
get_session-clear_session c b = simp lookup-remove (ground arith)

pub is_logged_in-clear_session :
    (c : Codec) (b : Browser) → is_logged_in c (clear_session b) ≡ false
unfolding is_logged_in
is_logged_in-clear_session c b = rw (get_session-clear_session c b)

-- What is stored under another key has no part in the session.
pub get_item-clear_session :
    (k : String) (b : Browser)
    → (session_key == k) ≡ false
    → get_item k (clear_session b) ≡ get_item k b
unfolding get_item clear_session
get_item-clear_session k b h = rw (lookup-remove, h)

-- A navigation does not change what is read of the session.
pub get_session-navigate :
    (c : Codec) (href : String) (b : Browser) → get_session c (navigate href b) ≡ get_session c b
unfolding get_session navigate
get_session-navigate c href b = refl
