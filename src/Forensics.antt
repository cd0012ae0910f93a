-- ===== src/Forensics.antt =====
-- The forensics page: a search, an export, the verification of the chain and the network of actors
-- and targets (frontend/src/app/forensics/page.tsx).
pub mod Laws
use the_eye.Base.{ℕ, Bool, true, false, Option, none, some, List, String}
use the_eye.Browser.{Browser}
use the_eye.Http.{Fetched, Outcome, value, no_content, raised, api_message}
use the_eye.Api.Events.{EventRead, EventSearchParams, search_events}
use the_eye.Api.Monitor.{ChainVerifyResult, NetworkGraph, verify_chain, get_forensics_network}
use the_eye.Api.Direct.{download_events_export}
use the_eye.Api.Call.{event, monitor}
use the_eye.Page.{attempt_take, attempt_set}

pub record ForensicsPage : Type 0 where
  pub query : String
  pub results : List EventRead
  pub searching : Bool
  pub error : Option String
  pub verify_result : Option ChainVerifyResult
  pub verifying : Bool
  pub network : Option NetworkGraph
  pub loading_network : Bool

-- { q: query, limit }
abbrev pub query_params : String → ℕ → EventSearchParams
query_params query limit = record {
  actor_id = none;
  event_type = none;
  event_category = none;
  outcome = none;
  q = some query;
  limit = some limit;
  offset = none;
}

abbrev exported {ℓ} : {T : Type ℓ} → Outcome T → ForensicsPage → ForensicsPage
exported (raised f) p = record p { error = some (api_message "Export failed" f) }
exported _ p = p

module _ (env : Option String) where
  unfoldable pub handle_search :
      Fetched (List EventRead) → ForensicsPage → Browser → ForensicsPage × Browser
  handle_search reply page =
      attempt_take env (event (search_events (query_params page.query 100)))
        (record {
          taken = λ es p. record p { results = es };
          failed = λ f p. record p { error = some (api_message "Search failed" f) };
          finally = λ p. record p { searching = false };
        })
        reply (record page { searching = true; error = none })

  -- The error of an earlier handler stays where the export succeeds.
  unfoldable pub handle_export {ℓ} :
      {T : Type ℓ} → String → Fetched T → ForensicsPage → Browser → ForensicsPage × Browser
  handle_export format reply page b =
      let (result, after) =
        download_events_export env (query_params page.query 500) format reply b in
      (exported result page, after)

  -- The verdict of an earlier check stays while this one runs.
  unfoldable pub verify_custody :
      Fetched ChainVerifyResult → ForensicsPage → Browser → ForensicsPage × Browser
  verify_custody reply page =
      attempt_set env (monitor verify_chain)
        (record {
          put = λ r p. record p { verify_result = r };
          failed = λ f p. record p { error = some (api_message "Chain verification failed" f) };
          finally = λ p. record p { verifying = false };
        })
        reply (record page { verifying = true; error = none })

  unfoldable pub handle_load_network :
      Fetched NetworkGraph → ForensicsPage → Browser → ForensicsPage × Browser
  handle_load_network reply page =
      attempt_set env (monitor get_forensics_network)
        (record {
          put = λ g p. record p { network = g };
          failed = λ f p. record p { error = some (api_message "Failed to load network" f) };
          finally = λ p. record p { loading_network = false };
        })
        reply (record page { loading_network = true; error = none })
