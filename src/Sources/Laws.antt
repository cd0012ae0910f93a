-- ===== src/Sources/Laws.antt =====
-- A new source's key.
use the_eye.Base.{false, Option, none, some, List, String, ◌≡◌}
use the_eye.Browser.{Browser}
use the_eye.Client.{react}
use the_eye.Http.{Fetched, value, raised, Failure, api_message, outcome}
use the_eye.Api.Users.{SourceRead, SourceCreated, list_sources, create_source}
use the_eye.Api.Call.{source, asked}
use the_eye.Api.Call.Laws.{perform_of_value, perform_of_outcome}
use the_eye.Page.Laws.{load_of_value}
use the_eye.Sources.{SourcesPage, handle_create, refresh}

module _ (env : Option String) (reply : Fetched SourceCreated) (list : Fetched (List SourceRead))
    (page : SourcesPage) (b : Browser) where
  -- If the server creates a source and then answers with the list, the two calls are sent in this
  -- order, the key of the source and the list are shown, and no error is left of an earlier
  -- attempt.
  pub handle_create_key :
      {k : SourceCreated} {ss : List SourceRead}
      → outcome reply ≡ value k
      → outcome list ≡ value ss
      → handle_create env reply list page b ≡ (
        record page { sources = ss; error = none; name = ""; creating = false; new_key = some k },
        asked env (source list_sources) (asked env (source (create_source page.name page.kind)) b),
      )
  unfolding handle_create refresh
  handle_create_key {k} created listed =
      rw (perform_of_value env (source (create_source page.name page.kind)) reply b created) (
        load_of_value env (source list_sources) list
          (record page { error = none; name = ""; creating = false; new_key = some k })
          (asked env (source (create_source page.name page.kind)) b) _ _ listed)

  -- An attempt that fails shows the error and no key, also where an earlier attempt's was shown, and
  -- keeps the name that was entered and the list.
  pub handle_create_failed :
      {f : Failure}
      → outcome reply ≡ raised f
      → handle_create env reply list page b ≡ (
        record page {
          error = some (api_message "Failed to create source" f);
          creating = false;
          new_key = none;
        },
        react reply (asked env (source (create_source page.name page.kind)) b),
      )
  unfolding handle_create
  handle_create_failed failed =
      rw (perform_of_outcome env (source (create_source page.name page.kind)) reply b failed)
