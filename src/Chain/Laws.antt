-- ===== src/Chain/Laws.antt =====
-- What the page of the chain shows after a verification.
use the_eye.Base.{true, false, Option, none, some, String, ◌≡◌, refl, ap}
use the_eye.Browser.{Browser}
use the_eye.Client.{react}
use the_eye.Http.{Fetched, Outcome, value, no_content, raised, outcome, api_message}
use the_eye.Api.Monitor.{ChainVerifyResult, verify_chain}
use the_eye.Api.Call.{monitor, asked}
use the_eye.Api.Call.Laws.{perform_of_outcome}
use the_eye.Page.{set, attempt_set}
use the_eye.Chain.{ChainPage, verdict_handlers, handle_verify}

-- What an answer makes of the page: only its own verdict and its own error are shown.
abbrev pub judged : Outcome ChainVerifyResult → ChainPage → ChainPage
judged (value r) p = record p { verify_result = some r; error = none; verifying = false }
judged no_content p = record p { verify_result = none; error = none; verifying = false }
judged (raised f) p = record p {
  verify_result = none;
  error = some (api_message "Verification failed" f);
  verifying = false;
}

set-judged :
    (o : Outcome ChainVerifyResult) (p : ChainPage)
    → set verdict_handlers o (record p { verifying = true; error = none; verify_result = none })
      ≡ judged o p
set-judged (value r) p = refl
set-judged no_content p = refl
set-judged (raised f) p = refl

-- A verification shows nothing of an earlier one: whatever the answer, one request is sent, the page
-- waits no longer, and it shows either the verdict that came or the error, never both.
handle_verify_lem :
    (env : Option String) (reply : Fetched ChainVerifyResult) (p : ChainPage) (b : Browser)
    → handle_verify env reply p b
      ≡ (judged (outcome reply) p, react reply (asked env (monitor verify_chain) b))
unfolding handle_verify attempt_set
handle_verify_lem env reply p b =
    rw (perform_of_outcome env (monitor verify_chain) reply b refl) (
      ap (λ w. (w, react reply (asked env (monitor verify_chain) b)))
        (set-judged (outcome reply) p))
