-- ===== src/Sources.antt =====
-- The page of the ingestion sources (frontend/src/app/admin/sources/page.tsx).
pub mod Laws
use the_eye.Base.{Bool, true, false, Option, none, some, List, String}
use the_eye.Browser.{Browser}
use the_eye.Http.{Fetched, Outcome, value, no_content, raised, Failure, api_message, any_message}
use the_eye.Api.Users.{SourceRead, SourceCreated, list_sources, create_source, deactivate_source}
use the_eye.Api.Call.{source, perform}
use the_eye.Page.{Handlers, attempt_then_load, load}

pub record SourcesPage : Type 0 where
  pub sources : List SourceRead
  pub error : Option String
  pub name : String
  pub kind : String
  pub creating : Bool
  pub new_key : Option SourceCreated

-- `undefined` is shown like `null`.
created_source : Outcome SourceCreated → Option SourceCreated
created_source (value k) = some k
created_source no_content = none
created_source (raised f) = none

module _ (env : Option String) where
  pub refresh : Fetched (List SourceRead) → SourcesPage → Browser → SourcesPage × Browser
  refresh =
      load env (source list_sources) (λ ss p. record p { sources = ss })
        λ f p. record p { error = some (any_message "Failed to load sources" f) }

  after_create :
      Outcome SourceCreated
      → Fetched (List SourceRead)
      → SourcesPage
      → Browser
      → SourcesPage × Browser
  unfolding refresh created_source
  after_create (raised f) list page b =
      (record page { error = some (api_message "Failed to create source" f); creating = false }, b)
  after_create o list page b =
      refresh list (record page { new_key = created_source o; name = ""; creating = false }) b

  -- The key of a new source is shown once; the next attempt forgets it.
  pub handle_create :
      Fetched SourceCreated
      → Fetched (List SourceRead)
      → SourcesPage
      → Browser
      → SourcesPage × Browser
  unfolding after_create
  handle_create reply list page b =
      let (result, after) = perform env (source (create_source page.name page.kind)) reply b in
      after_create result list (record page { creating = true; error = none; new_key = none }) after

  pub handle_deactivate :
      String
      → Fetched SourceRead
      → Fetched (List SourceRead)
      → SourcesPage
      → Browser
      → SourcesPage × Browser
  unfolding refresh
  handle_deactivate id reply list =
      attempt_then_load env (source (deactivate_source id))
        (record {
          done = λ p. p;
          failed = λ f p. record p { error = some (api_message "Failed to deactivate source" f) };
          finally = λ p. p;
        })
        reply (refresh list)
