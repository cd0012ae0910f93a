-- ===== src/Chain.antt =====
-- The chain of custody: its summary and its verification (frontend/src/app/chain/page.tsx).
pub mod Laws
use the_eye.Base.{Bool, true, false, Option, none, some, String}
use the_eye.Browser.{Browser}
use the_eye.Http.{Fetched, any_message, api_message}
use the_eye.Api.Monitor.{ChainSummary, ChainVerifyResult, get_chain_summary, verify_chain}
use the_eye.Api.Call.{platform, monitor, perform}
use the_eye.Page.{Setting, load, attempt_set}

pub record ChainPage : Type 0 where
  pub summary : Option ChainSummary
  pub verify_result : Option ChainVerifyResult
  pub verifying : Bool
  pub error : Option String

abbrev pub verdict_handlers : Setting ChainVerifyResult ChainPage
verdict_handlers = record {
  put = λ r p. record p { verify_result = r };
  failed = λ f p. record p { error = some (api_message "Verification failed" f) };
  finally = λ p. record p { verifying = false };
}

module _ (env : Option String) where
  -- The summary is asked for twice, and the first answer is not looked at.
  unfoldable pub load_summary :
      Fetched ChainSummary → Fetched ChainSummary → ChainPage → Browser → ChainPage × Browser
  load_summary first reply page b =
      let (ignored, b₁) = perform env (platform get_chain_summary) first b in
      load env (platform get_chain_summary) (λ s p. record p { summary = some s })
        (λ f p. record p { error = some (any_message "Failed to load chain summary" f) }) reply page
        b₁

  unfoldable pub handle_verify :
      Fetched ChainVerifyResult → ChainPage → Browser → ChainPage × Browser
  handle_verify reply page =
      attempt_set env (monitor verify_chain) verdict_handlers reply
        (record page { verifying = true; error = none; verify_result = none })
