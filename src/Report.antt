-- ===== src/Report.antt =====
-- The form of an anonymous report (frontend/src/app/report/page.tsx).
use the_eye.Base.{Bool, true, false, not, ◌||◌, Option, none, some, String, ◌==◌}
use the_eye.Browser.{Browser}
use the_eye.Http.{Fetched, Outcome, raised, Failure, api_error, other_error}
use the_eye.Api.Direct.{submit_whistleblower_report}

pub record ReportPage : Type 0 where
  pub report : String
  pub category : String
  pub submitted : Bool
  pub error : Option String
  pub loading : Bool

unfoldable pub may_submit : ReportPage → Bool
may_submit p = not (p.loading || p.report == "")

abbrev report_error : Failure → String
report_error (api_error status m) = "Failed to submit -- please try again later."
report_error (other_error m) = "Failed to submit."

unfoldable pub after_report : Outcome (Unit {0}) → ReportPage → ReportPage
after_report (raised f) p = record p { error = some (report_error f); loading = false }
after_report _ p = record p { submitted = true; loading = false }

unfoldable pub handle_report :
    Option String → Fetched (Unit {0}) → ReportPage → Browser → ReportPage × Browser
unfolding after_report
handle_report env reply page b =
    let (result, after) = submit_whistleblower_report env page.report page.category reply b in
    (after_report result (record page { loading = true; error = none }), after)
