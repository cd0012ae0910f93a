-- ===== src/Machines.antt =====
-- The machines with an agent (frontend/src/app/admin/machines/page.tsx).
use the_eye.Base.{
  ℕ, ◌+◌, Bool, true, false, not, Option, none, some, List, [], ◌∷◌, String, ◌⧺◌, ◌≡◌, refl, arith,
  filter, length, if◌then◌else◌,
}
use the_eye.Json.Codec.{Codec}
use the_eye.Query.Decimal.{decimal}
use the_eye.Browser.{Browser, navigate}
use the_eye.Session.{get_session, role_of, found_in}
use the_eye.Http.{Fetched, Outcome, value, no_content, raised, Failure, api_error, other_error}
use the_eye.Api.Activity.{AgentMachine, list_machines}
use the_eye.Staff.AuditLog.{log_time_ago}
use the_eye.Api.Call.{activity, perform}

pub record MachinesPage : Type 0 where
  pub machines : List AgentMachine
  pub loading : Bool
  pub error : Option String

-- How `String(e)` words an error with a message is left open.
module _ (worded : String → String) where
  unfoldable pub machines_error : Failure → String
  machines_error (api_error status m) = decimal status ⧺ " — " ⧺ m
  machines_error (other_error m) = worded m

  unfoldable pub machines_came : Outcome (List AgentMachine) → MachinesPage → MachinesPage
  unfolding machines_error
  machines_came (value ms) p = record p { machines = ms; error = none; loading = false }
  machines_came no_content p = record p { error = none; loading = false }
  machines_came (raised f) p = record p { error = some (machines_error f); loading = false }

  -- Every 30 seconds, and on the button; the page does not show that it loads again.
  unfoldable pub load_machines :
      Option String → Fetched (List AgentMachine) → MachinesPage → Browser → MachinesPage × Browser
  unfolding machines_came
  load_machines env reply p b =
      let (result, after) = perform env (activity list_machines) reply b in
      (machines_came result p, after)

-- The page is for admins: others are sent to the overview.
unfoldable pub see_machines : Codec → Browser → Bool × Browser
unfolding navigate get_session
see_machines c b = elim (get_session c b) [
  | none ↦ (false, navigate "/overview" b)
  | some v ↦
      if found_in ("admin" ∷ []) (role_of v) then (true, b) else (false, navigate "/overview" b)
]

-- How long ago a time was, in milliseconds as `now` is.
unfoldable pub machine_time_ago : ℕ → Option ℕ → String
unfolding log_time_ago
machine_time_ago now none = "Never"
machine_time_ago now (some t) = log_time_ago now t

unfoldable pub online : List AgentMachine → ℕ
online ms = length (filter (λ m. m.is_online) ms)

unfoldable pub offline : List AgentMachine → ℕ
offline ms = length (filter (λ m. not m.is_online) ms)

-- Every machine is counted once, as online or as offline.
online-offline : (ms : List AgentMachine) → online ms + offline ms ≡ length ms
unfolding online offline
online-offline [] = refl
online-offline (m ∷ ms) = ground (arith, online-offline ms)
