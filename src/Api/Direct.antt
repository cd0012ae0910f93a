-- ===== src/Api/Direct.antt =====
-- The two functions of frontend/src/lib/api-client.ts that call `fetch` themselves: the export of
-- events, and the whistleblower report, which is sent without credentials.
pub mod Laws
use the_eye.Base.{
  ℕ, true, false, Bool, Option, none, some, [], ◌∷◌, String, ◌⧺◌, ◌==◌, ◌||◌, if◌then◌else◌,
}
use the_eye.Json.{str, object}
use the_eye.Browser.{Browser, Wire, send}
use the_eye.Http.{
  Settled, resolved, rejected, Fetched, unreachable, response, Failure, api_error, other_error,
  Outcome, value, no_content, raised, api_base, json_headers, is_ok,
}
use the_eye.Api.Events.{EventSearchParams, export_query}

-- throw new ApiError(res.status, await res.text())
abbrev plain_error {ℓ} : {T : Type ℓ} → ℕ → Settled String → Outcome T
plain_error status (resolved body) = raised (api_error status body)
plain_error status (rejected m) = raised (other_error m)

pub export_wire : Option String → EventSearchParams → String → Wire
export_wire env params format = record {
  origin = api_base env;
  path = "/v1/events/export";
  query = export_query params format;
  method = "GET";
  headers = [];
  include = true;
  body = none;
}

-- A file saved by the browser: its name and its content.
abbrev saved {ℓ} : {T : Type ℓ} → String → Settled T → Outcome (String × T)
saved format (resolved blob) = value ("the-eye-evidence-export." ⧺ format, blob)
saved format (rejected m) = raised (other_error m)

export_outcome {ℓ} : {T : Type ℓ} → String → Fetched T → Outcome (String × T)
export_outcome format (unreachable m) = raised (other_error m)
export_outcome format (response status status_text text blob) =
    if is_ok status then saved format blob else plain_error status text

-- The answer's JSON stands for the blob here.
pub download_events_export {ℓ} :
    {T : Type ℓ}
    → Option String
    → EventSearchParams
    → String
    → Fetched T
    → Browser
    → Outcome (String × T) × Browser
unfolding export_wire export_outcome send
download_events_export env params format reply b =
    (export_outcome format reply, send (export_wire env params format) b)

pub report_wire : Option String → String → String → Wire
report_wire env report category = record {
  origin = api_base env;
  path = "/v1/whistleblower";
  query = [];
  method = "POST";
  headers = json_headers;
  include = false;
  body = some (object (("report", str report) ∷ ("category", str category) ∷ []));
}

report_outcome : Fetched (Unit {0}) → Outcome (Unit {0})
report_outcome (unreachable m) = raised (other_error m)
report_outcome (response status status_text text json) =
    if is_ok status then no_content else plain_error status text

pub submit_whistleblower_report :
    Option String → String → String → Fetched (Unit {0}) → Browser → Outcome (Unit {0}) × Browser
unfolding report_wire report_outcome send
submit_whistleblower_report env report category reply b =
    (report_outcome reply, send (report_wire env report category) b)
