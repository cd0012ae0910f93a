-- ===== src/Examples/Clients.antt =====
-- Calls of both clients.
use the_eye.Base.{false, [], ◌∷◌, String, ◌≡◌, ◌≢◌, refl}
use the_eye.Json.Sample.{sample_codec}
use the_eye.Browser.{Wire}
use the_eye.Session.{is_logged_in, get_session}
use the_eye.Session.Guard.{require_auth}
use the_eye.Http.{Endpoint, Fetched, response, resolved, rejected, value, get_call, wire}
use the_eye.Client.{request}
use the_eye.Client.Laws.{request_unauthorised}
use the_eye.Api.Oversight.{investigate}
use the_eye.Api.Call.{oversight, perform}
use the_eye.Api.Call.Laws.{IsSessionWire, sent-perform}
use the_eye.Staff.Session.{is_staff}
use the_eye.Staff.Client.{staff_request}
use the_eye.Staff.Client.Laws.{staff_request_lem}
use the_eye.Examples.Data.{env, home}

abbrev users_call : Endpoint
users_call = get_call "/v1/users" []

abbrev expired : Fetched String
expired = response 401 "Unauthorized" (resolved "") (rejected "no JSON")

request_unauthorised_example :
    (is_logged_in sample_codec (request env users_call expired home).1 ≡ false)
    × ((request env users_call expired home).1.visited ≡ "/login" ∷ [])
    × ((require_auth sample_codec (request env users_call expired home).1).0 ≡ false)
    × ((v : String) → (request env users_call expired home).0 ≢ value v)
request_unauthorised_example =
    request_unauthorised env users_call home sample_codec "Unauthorized" (resolved "")
      (rejected "no JSON") refl

sent-perform_example :
    (w : Wire) × ((perform env (oversight (investigate "who?")) expired home).1.sent ≡ w ∷ [])
    × IsSessionWire env w
sent-perform_example = sent-perform env (oversight (investigate "who?")) expired home

staff_request_lem_example :
    ((staff_request env users_call expired home).1.sent ≡ wire env users_call ∷ [])
    × ((staff_request env users_call expired home).1.visited ≡ [])
    × (is_staff sample_codec (staff_request env users_call expired home).1 ≡ false)
    × (get_session sample_codec (staff_request env users_call expired home).1
        ≡ get_session sample_codec home)
staff_request_lem_example = staff_request_lem env users_call expired home sample_codec
