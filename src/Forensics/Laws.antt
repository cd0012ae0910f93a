-- ===== src/Forensics/Laws.antt =====
-- A check that fails beside the verdict of an earlier one.
use the_eye.Base.{true, Option, none, is_some, String, ◌≡◌, refl}
use the_eye.Browser.{Browser}
use the_eye.Http.{Fetched, raised, Failure, outcome}
use the_eye.Api.Monitor.{ChainVerifyResult, verify_chain}
use the_eye.Api.Call.{monitor}
use the_eye.Api.Call.Laws.{perform_of_outcome}
use the_eye.Page.{attempt_set}
use the_eye.Chain.{ChainPage, handle_verify}
use the_eye.Forensics.{ForensicsPage, verify_custody}

-- Where a check of the chain raises an error, the forensics page shows the error beside the verdict
-- it had before, while the page of the chain shows the error and no verdict.
verify_custody_of_raised :
    (env : Option String) (reply : Fetched ChainVerifyResult) (p : ForensicsPage) (c : ChainPage)
    (b : Browser) {f : Failure}
    → outcome reply ≡ raised f
    → ((verify_custody env reply p b).0.verify_result ≡ p.verify_result)
      × (is_some (verify_custody env reply p b).0.error ≡ true)
      × ((handle_verify env reply c b).0.verify_result ≡ none)
      × (is_some (handle_verify env reply c b).0.error ≡ true)
unfolding verify_custody handle_verify attempt_set
verify_custody_of_raised env reply p c b h =
    rw (perform_of_outcome env (monitor verify_chain) reply b h) (refl, refl, refl, refl)
