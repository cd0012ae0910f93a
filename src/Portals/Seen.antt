-- ===== src/Portals/Seen.antt =====
-- What each way of writing to the browser does to the two sessions.
use the_eye.Base.{
  Bool-cases, inl, inr, true, false, none, some, String, ◌==◌, ◌≡◌, refl, ◌∙◌, Bool, if◌then◌else◌,
}
use the_eye.Base.Dict.{lookup-insert, lookup-remove}
use the_eye.Json.Codec.{Codec}
use the_eye.Browser.{Browser, Wire, set_item, navigate, send}
use the_eye.Session.{Session, session_key, session_json, get_session, set_session, clear_session}
use the_eye.Session.Laws.{get_session-set_session, get_session-clear_session}
use the_eye.Client.{expel, react}
use the_eye.Http.{Fetched, is_unauthorised}
use the_eye.Staff.Session.{
  StaffSession, staff_key, staff_json, get_staff_session, set_staff_session, clear_staff_session,
}
use the_eye.Staff.Session.Laws.{
  get_staff_session-set_staff_session, get_staff_session-clear_staff_session,
  get_session-clear_staff_session,
}
use the_eye.Staff.Client.{staff_react}
use the_eye.Portals.{Visitors, signed_in, unless_401}

-- Neither a navigation nor a request changes the sessions.
pub signed_in-navigate :
    (c : Codec) (href : String) (b : Browser) → signed_in c (navigate href b) ≡ signed_in c b
unfolding navigate get_session get_staff_session
signed_in-navigate c href b = refl

pub signed_in-send : (c : Codec) (w : Wire) (b : Browser) → signed_in c (send w b) ≡ signed_in c b
unfolding send get_session get_staff_session
signed_in-send c w b = refl

signed_in-if_navigate :
    (c : Codec) (b : Browser) (href : String) (t : Bool)
    → signed_in c (if t then navigate href b else b) ≡ signed_in c b
signed_in-if_navigate c b href true = signed_in-navigate c href b
signed_in-if_navigate c b href false = refl

module _ (c : Codec) (b : Browser) where
  -- The sessions after a change to the browser, from what each portal reads.
  both :
      (b' : Browser) (v : Visitors)
      → get_session c b' ≡ v.user
      → get_staff_session c b' ≡ v.admin
      → signed_in c b' ≡ v
  both b' v user admin = λ i. record { user = user i; admin = admin i }

  -- What is stored under a key of neither session.
  pub signed_in-set_item :
      (k text : String)
      → (k == session_key) ≡ false
      → (k == staff_key) ≡ false
      → signed_in c (set_item k text b) ≡ signed_in c b
  unfolding get_session get_staff_session set_item
  signed_in-set_item k text h j =
      both (set_item k text b) (signed_in c b) (simp (lookup-insert, h)) (simp (lookup-insert, j))

  pub signed_in-set_session :
      (s : Session)
      → b.window ≡ true
      → signed_in c (set_session c (session_json s) b)
        ≡ record (signed_in c b) { user = some (session_json s) }
  unfolding get_staff_session set_session
  signed_in-set_session s w =
      both (set_session c (session_json s) b)
        (record (signed_in c b) { user = some (session_json s) }) (get_session-set_session c s b w)
        (simp lookup-insert)

  pub signed_in-clear_session :
      signed_in c (clear_session b) ≡ record (signed_in c b) { user = none }
  unfolding get_staff_session clear_session
  signed_in-clear_session =
      both (clear_session b) (record (signed_in c b) { user = none })
        (get_session-clear_session c b) (simp lookup-remove)

  pub signed_in-set_staff_session :
      (s : StaffSession)
      → b.window ≡ true
      → signed_in c (set_staff_session c (staff_json s) b)
        ≡ record (signed_in c b) { admin = some (staff_json s) }
  unfolding get_session set_staff_session
  signed_in-set_staff_session s w =
      both (set_staff_session c (staff_json s) b)
        (record (signed_in c b) { admin = some (staff_json s) }) (simp lookup-insert)
        (get_staff_session-set_staff_session c s b w)

  pub signed_in-clear_staff_session :
      signed_in c (clear_staff_session b) ≡ record (signed_in c b) { admin = none }
  signed_in-clear_staff_session =
      both (clear_staff_session b) (record (signed_in c b) { admin = none })
        (get_session-clear_staff_session c b) (get_staff_session-clear_staff_session c b)

  signed_in-expel : signed_in c (expel b) ≡ record (signed_in c b) { user = none }
  unfolding expel
  signed_in-expel =
      signed_in-if_navigate c (clear_session b) "/login" b.window ∙ signed_in-clear_session

  -- The answer to a call of either portal.
  pub signed_in-react {ℓ} :
      {T : Type ℓ} (reply : Fetched T)
      → signed_in c (react reply b)
        ≡ record (signed_in c b) { user = unless_401 reply (signed_in c b).user }
  signed_in-react reply = elim (Bool-cases (is_unauthorised reply)) [
    | inl e ↦ rw e signed_in-expel
    | inr e ↦ rw e refl
  ]

  pub signed_in-staff_react {ℓ} :
      {T : Type ℓ} (reply : Fetched T)
      → signed_in c (staff_react reply b)
        ≡ record (signed_in c b) { admin = unless_401 reply (signed_in c b).admin }
  signed_in-staff_react reply = elim (Bool-cases (is_unauthorised reply)) [
    | inl e ↦ rw e signed_in-clear_staff_session
    | inr e ↦ rw e refl
  ]
