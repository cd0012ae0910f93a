-- ===== src/Api/Call.antt =====
-- Every call of the dashboard that goes through `request` (frontend/src/lib/api-client.ts).
pub mod Laws
use the_eye.Base.{Option, String}
use the_eye.Browser.{Browser, send}
use the_eye.Http.{Endpoint, Fetched, Outcome, wire}
use the_eye.Client.{request}
use the_eye.Api.Auth.{AuthCall, auth_endpoint}
use the_eye.Api.Events.{EventCall, event_endpoint, FlagCall, flag_endpoint}
use the_eye.Api.Users.{UserCall, user_endpoint, SourceCall, source_endpoint}
use the_eye.Api.Monitor.{MonitorCall, monitor_endpoint, PlatformCall, platform_endpoint}
use the_eye.Api.Oversight.{OversightCall, oversight_endpoint}
use the_eye.Api.Keys.{KeyCall, key_endpoint, BillingCall, billing_endpoint}
use the_eye.Api.Activity.{ActivityCall, activity_endpoint}
use the_eye.Api.Account.{AccountCall, account_endpoint}

pub data Call : Type 0 where
  auth : AuthCall → Call
  event : EventCall → Call
  flag : FlagCall → Call
  user : UserCall → Call
  source : SourceCall → Call
  monitor : MonitorCall → Call
  platform : PlatformCall → Call
  oversight : OversightCall → Call
  key : KeyCall → Call
  billing : BillingCall → Call
  activity : ActivityCall → Call
  account : AccountCall → Call

unfoldable pub endpoint : Call → Endpoint
unfolding auth_endpoint event_endpoint flag_endpoint user_endpoint source_endpoint monitor_endpoint
    platform_endpoint oversight_endpoint key_endpoint billing_endpoint activity_endpoint
    account_endpoint
endpoint (auth c) = auth_endpoint c
endpoint (event c) = event_endpoint c
endpoint (flag c) = flag_endpoint c
endpoint (user c) = user_endpoint c
endpoint (source c) = source_endpoint c
endpoint (monitor c) = monitor_endpoint c
endpoint (platform c) = platform_endpoint c
endpoint (oversight c) = oversight_endpoint c
endpoint (key c) = key_endpoint c
endpoint (billing c) = billing_endpoint c
endpoint (activity c) = activity_endpoint c
endpoint (account c) = account_endpoint c

-- The browser once the request of the call is sent.
abbrev pub asked : Option String → Call → Browser → Browser
asked env c b = send (wire env (endpoint c)) b

-- The call with the server's answer to it.
unfoldable pub perform {ℓ} :
    {T : Type ℓ} → Option String → Call → Fetched T → Browser → Outcome T × Browser
perform env c reply b = request env (endpoint c) reply b
