-- ===== src/FileActivity.antt =====
-- The activity of files and devices (frontend/src/app/file-activity/page.tsx). A load is cut at its
-- `await`: what it asks is fixed when it starts, and the page may change before its answer comes.
pub mod Laws
use the_eye.Base.{Bool, true, false, Option, none, some, List, String, ◌==◌, if◌then◌else◌}
use the_eye.Base.Dict.{Dict, insert}
use the_eye.Browser.{Browser}
use the_eye.Http.{Fetched, Outcome, value, no_content, raised, Failure}
use the_eye.Api.Events.{EventRead, flag_event}
use the_eye.Api.Activity.{ActivityCall, get_file_activity, get_usb_events}
use the_eye.Api.Call.{activity, flag, perform}
use the_eye.AuditTrail.{message}

pub data ActivityTab : Type 0 where
  files usb : ActivityTab

pub record FilePage : Type 0 where
  pub tab : ActivityTab
  pub events : List EventRead
  pub loading : Bool
  pub actor : String
  pub host : String
  pub operation : String
  pub flag_target : Option EventRead
  pub flagged : Dict Bool

-- s || undefined
abbrev given : String → Option String
given s = if s == "" then none else some s

-- What a load asks. The operation is left out for devices.
unfoldable pub asks : ActivityTab → FilePage → ActivityCall
asks files p = get_file_activity (record {
  actor_id = given p.actor;
  host = given p.host;
  operation = given p.operation;
  limit = some 200;
  offset = none;
})
asks usb p =
    get_usb_events (record { actor_id = given p.actor; host = given p.host; limit = some 200 })

-- The answer to a load; a failure is not handled, and only `finally` is seen of it.
unfoldable pub events_came : Outcome (List EventRead) → FilePage → FilePage
events_came (value es) p = record p { events = es; loading = false }
events_came _ p = record p { loading = false }

-- What the effect on the tab and the filters does before the answer of its load.
unfoldable pub choose : (FilePage → FilePage) → FilePage → FilePage
choose change p = record (change p) { loading = true }

unfoldable pub answer_load :
    Option String
    → ActivityCall
    → Fetched (List EventRead)
    → FilePage
    → Browser
    → FilePage × Browser
unfolding events_came
answer_load env call reply p b =
    let (result, after) = perform env (activity call) reply b in (events_came result p, after)

-- The dialog that flags an event.
pub record FlagModal : Type 0 where
  pub note : String
  pub saving : Bool
  pub err : String

unfoldable pub on_done : String → FilePage → FilePage
on_done id p = record p { flagged = insert id true p.flagged; flag_target = none }

unfoldable pub flag_came : String → Outcome (Unit {0}) → FlagModal → FilePage → FlagModal × FilePage
unfolding on_done
flag_came id (raised f) m p = (record m { err = message f; saving = false }, p)
flag_came id _ m p = (record m { saving = false }, on_done id p)

unfoldable pub flag_file :
    Option String
    → EventRead
    → String
    → Fetched (Unit {0})
    → FlagModal
    → FilePage
    → Browser
    → FlagModal × FilePage × Browser
unfolding flag_came
flag_file env event type reply m p b =
    let (result, after) = perform env (flag (flag_event event.id type (given m.note))) reply b in
    let (m', p') = flag_came event.id result (record m { saving = true; err = "" }) p in
    (m', p', after)
