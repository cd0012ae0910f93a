-- ===== src/Settings/Danger.antt =====
-- The danger zone, in which an admin asks for the deletion of the account in two steps
-- (frontend/src/app/settings/page.tsx, DangerZone).
pub mod Steps
pub mod Safety
pub mod Progress
use the_eye.Base.{
  Bool, true, false, not, ◌||◌, Option, none, some, List, [], ◌∷◌, String, ◌==◌, if◌then◌else◌,
}
use the_eye.Browser.{Browser}
use the_eye.Client.{react}
use the_eye.Http.{Fetched, Outcome, Failure, outcome, api_message, or_text}
use the_eye.Api.Account.{
  TenantProfile, AccountCall, request_account_deletion, cancel_account_deletion,
}
use the_eye.Api.Call.{account, asked}
use the_eye.Page.{Handlers, settle}

pub data DeletionStep : Type 0 where
  idle password_step confirm_step pending : DeletionStep

pub record Zone : Type 0 where
  pub step : DeletionStep
  pub password : String
  pub reason : String
  pub confirm_text : String
  pub busy : Bool
  pub err : Option String

-- The two calls of the zone.
pub data Ask : Type 0 where
  deletion cancellation : Ask

-- The zone with its browser and the calls that are not answered yet.
pub record World : Type 0 where
  pub zone : Zone
  pub browser : Browser
  pub flights : List Ask

-- profile?.pending_deletion
abbrev is_pending : Option TenantProfile → Bool
is_pending none = false
is_pending (some p) = p.pending_deletion

unfoldable pub initial_zone : Option TenantProfile → Zone
initial_zone profile = record {
  step = if is_pending profile then pending else idle;
  password = "";
  reason = "";
  confirm_text = "";
  busy = false;
  err = none;
}

-- The effect that follows the loaded profile.
unfoldable pub sync : Option TenantProfile → Zone → Zone
sync profile z = if is_pending profile then record z { step = pending } else z

-- The buttons of the zone, in the order in which they are shown.
unfoldable pub begin_deletion : Zone → Zone
begin_deletion z = record z { step = password_step; err = none }

unfoldable pub continue_deletion : Zone → Zone
continue_deletion z = if z.password == "" then z else record z { step = confirm_step; err = none }

unfoldable pub cancel_password : Zone → Zone
cancel_password z = record z { step = idle; password = ""; reason = ""; err = none }

unfoldable pub cancel_confirm : Zone → Zone
cancel_confirm z = record z {
  step = idle;
  password = "";
  reason = "";
  confirm_text = "";
  err = none;
}

abbrev started : Zone → Zone
started z = record z { busy = true; err = none }

abbrev pub default_reason : String
default_reason = "Account deletion requested by admin"

abbrev deletion_call : Zone → AccountCall
deletion_call z = request_account_deletion z.password (or_text z.reason default_reason)

abbrev submit_handlers : Handlers Zone
submit_handlers = record {
  done = λ z. record z { step = pending; password = ""; confirm_text = ""; reason = "" };
  failed = λ f z. record z { err = some (api_message "Request failed. Please try again." f) };
  finally = λ z. record z { busy = false };
}

abbrev cancel_handlers : Handlers Zone
cancel_handlers = record {
  done = λ z. record z { step = idle };
  failed = λ f z. record z { err = some (api_message "Cancel failed. Please try again." f) };
  finally = λ z. record z { busy = false };
}

abbrev pub handlers_of : Ask → Handlers Zone
handlers_of deletion = submit_handlers
handlers_of cancellation = cancel_handlers

module _ (env : Option String) where
  -- Each handler up to its `await`: the request leaves, and its answer is waited for.
  unfoldable pub submit_request : World → World
  submit_request w =
      if w.zone.confirm_text == "DELETE"
      then record w {
        zone = started w.zone;
        browser = asked env (account (deletion_call w.zone)) w.browser;
        flights = deletion ∷ w.flights;
      }
      else w

  unfoldable pub cancel_request : World → World
  cancel_request w = record w {
    zone = started w.zone;
    browser = asked env (account cancel_account_deletion) w.browser;
    flights = cancellation ∷ w.flights;
  }

-- The rest of the handler, once the answer is there.
unfoldable pub answered_zone : Ask → Fetched (Unit {0}) → Zone → Zone
unfolding outcome
answered_zone a reply z = settle (handlers_of a) (outcome reply) z

unfoldable pub land : Ask → List Ask → Fetched (Unit {0}) → World → World
unfolding answered_zone
land a rest reply w = record w {
  zone = answered_zone a reply w.zone;
  browser = react reply w.browser;
  flights = rest;
}
