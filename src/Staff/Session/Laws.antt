-- ===== src/Staff/Session/Laws.antt =====
-- Who counts as signed in to the staff portal.
use the_eye.Base.{String, true, false, none, some, ◌≡◌, refl, ◌==◌, arith}
use the_eye.Base.Dict.{lookup-insert, lookup-remove}
use the_eye.Json.{property}
use the_eye.Json.Codec.{Codec}
use the_eye.Browser.{Browser, navigate}
use the_eye.Session.{read_session, get_session}
use the_eye.Session.Laws.{read_session-stringify}
use the_eye.Staff.Session.{
  StaffSession, staff_properties, staff_json, get_staff_session, set_staff_session, is_staff,
  clear_staff_session,
}

pub get_staff_session-set_staff_session :
    (c : Codec) (s : StaffSession) (b : Browser)
    → b.window ≡ true
    → get_staff_session c (set_staff_session c (staff_json s) b) ≡ some (staff_json s)
unfolding get_staff_session set_staff_session
get_staff_session-set_staff_session c s b w =
    rw (w, lookup-insert) (read_session-stringify c (staff_properties s) refl)

-- In a browser window, whoever's session is stored counts as staff exactly when its role is that of
-- a super admin.
pub is_staff-set_staff_session :
    (c : Codec) (s : StaffSession) (b : Browser)
    → b.window ≡ true
    → is_staff c (set_staff_session c (staff_json s) b) ≡ (s.role == "super_admin")
unfolding is_staff property
is_staff-set_staff_session c s b w = rw (get_staff_session-set_staff_session c s b w, is_staff) refl

pub get_staff_session-clear_staff_session :
    (c : Codec) (b : Browser) → get_staff_session c (clear_staff_session b) ≡ none
unfolding get_staff_session clear_staff_session read_session
get_staff_session-clear_staff_session c b = simp lookup-remove (ground arith)

pub get_session-clear_staff_session :
    (c : Codec) (b : Browser) → get_session c (clear_staff_session b) ≡ get_session c b
unfolding get_session clear_staff_session
get_session-clear_staff_session c b = simp lookup-remove

-- Clearing the staff session signs the staff out, and leaves the session of the dashboard, which is
-- kept under another key.
pub is_staff-clear_staff_session :
    (c : Codec) (b : Browser)
    → (is_staff c (clear_staff_session b) ≡ false)
      × (get_session c (clear_staff_session b) ≡ get_session c b)
unfolding is_staff
is_staff-clear_staff_session c b = (
  rw (get_staff_session-clear_staff_session c b, is_staff) refl,
  get_session-clear_staff_session c b,
)

-- A navigation signs nobody in or out.
pub is_staff-navigate :
    (c : Codec) (href : String) (b : Browser) → is_staff c (navigate href b) ≡ is_staff c b
unfolding is_staff navigate
is_staff-navigate c href b = refl
