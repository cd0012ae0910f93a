-- ===== src/Investigate.antt =====
-- A question in plain language and the report on it (frontend/src/app/investigate/page.tsx).
use the_eye.Base.{ℕ, Bool, true, false, not, ◌||◌, Option, none, some, List, String, ◌==◌}
use the_eye.Base.Dict.{Dict}
use the_eye.Browser.{Browser}
use the_eye.Http.{Fetched, api_message}
use the_eye.Api.Events.{EventRead}
use the_eye.Api.Oversight.{investigate}
use the_eye.Api.Call.{oversight}
use the_eye.Page.{attempt_set}

-- `filters_used` is a record of values of any kind, as texts here.
pub record InvestigateResponse : Type 0 where
  pub filters_used : Dict String
  pub matched_count : ℕ
  pub report_text : String
  pub events : List EventRead

pub record InvestigatePage : Type 0 where
  pub question : String
  pub result : Option InvestigateResponse
  pub error : Option String
  pub loading : Bool

-- The button is off while an answer is awaited and where there is no question.
unfoldable pub may_ask : InvestigatePage → Bool
may_ask p = not (p.loading || p.question == "")

unfoldable pub handle_question :
    Option String
    → Fetched InvestigateResponse
    → InvestigatePage
    → Browser
    → InvestigatePage × Browser
handle_question env reply page =
    attempt_set env (oversight (investigate page.question))
      (record {
        put = λ r p. record p { result = r };
        failed = λ f p. record p { error = some (api_message "Failed to investigate" f) };
        finally = λ p. record p { loading = false };
      })
      reply (record page { loading = true; error = none; result = none })
