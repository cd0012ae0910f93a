-- ===== src/Staff/Health.antt =====
-- The health of the API (staff-portal/src/app/health/page.tsx) and the theme chosen in the settings
-- (staff-portal/src/app/settings/page.tsx).
use the_eye.Base.{
  ℕ, ◌-◌, Bool, false, Option, none, some, [], String, ◌==◌, ltb, or_else, if◌then◌else◌,
}
use the_eye.Browser.{Browser, Wire, send, get_item, set_item}
use the_eye.Http.{Fetched, unreachable, response, api_base, is_ok}

pub record HealthResult : Type 0 where
  pub is_healthy : Bool
  pub latency_ms : ℕ
  pub checked_at : String

pub record HealthPage : Type 0 where
  pub health : Option HealthResult
  pub checking : Bool

unfoldable pub health_wire : Option String → Wire
health_wire env = record {
  origin = api_base env;
  path = "/healthz";
  query = [];
  method = "GET";
  headers = [];
  include = false;
  body = none;
}

abbrev reached {ℓ} : {T : Type ℓ} → Fetched T → Bool
reached (unreachable m) = false
reached (response status status_text text json) = is_ok status

-- The times before and after the call are given in milliseconds, and the present as a text.
unfoldable pub ping_health {ℓ} :
    {T : Type ℓ}
    → Option String
    → (start end : ℕ) (now : String) → Fetched T
    → Browser
    → HealthResult × Browser
unfolding health_wire
ping_health env start end now reply b = (
  record { is_healthy = reached reply; latency_ms = end - start; checked_at = now },
  send (health_wire env) b,
)

unfoldable pub check {ℓ} :
    {T : Type ℓ}
    → Option String
    → (start end : ℕ) (now : String) → Fetched T
    → HealthPage
    → Browser
    → HealthPage × Browser
unfolding ping_health
check env start end now reply p b =
    let (result, after) = ping_health env start end now reply b in
    (record p { health = some result; checking = false }, after)

pub data LatencyTone : Type 0 where
  muted safe warn danger : LatencyTone

unfoldable pub latency_tone : Option HealthResult → LatencyTone
latency_tone none = muted
latency_tone (some h) =
    if ltb h.latency_ms 200 then safe else if ltb h.latency_ms 800 then warn else danger

-- The settings: the theme shown as chosen, and the choice of one.
unfoldable pub staff_theme : Browser → String
staff_theme b = or_else (get_item "staff_theme" b) "dark"

unfoldable pub apply_staff_theme : String → Browser → Browser
apply_staff_theme t b = record (set_item "staff_theme" t b) { dark = t == "dark" }
