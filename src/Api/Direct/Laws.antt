-- ===== src/Api/Direct/Laws.antt =====
-- What an export sends, and that it does not touch the session.
use the_eye.Base.{true, Option, some, String, ◌∷◌, ◌≡◌, ◌==◌, refl, if◌then◌else◌}
use the_eye.Base.Dict.{lookup, lookup-insert}
use the_eye.Browser.{Browser}
use the_eye.Http.{Fetched}
use the_eye.Api.Events.{EventSearchParams, search_query, export_query}
use the_eye.Api.Direct.{download_events_export, export_wire}

-- An export sends one request, with the session cookie and the search's query, the format added;
-- unlike `request` it leaves the session and the location alone also on an answer of 401.
download_events_export_lem {ℓ} :
    {T : Type ℓ} (env : Option String) (params : EventSearchParams) (format k : String)
    (reply : Fetched T) (b : Browser)
    → ((download_events_export env params format reply b).1.sent
        ≡ export_wire env params format ∷ b.sent)
      × ((export_wire env params format).include ≡ true)
      × (lookup k (export_wire env params format).query
          ≡ (if "format" == k then some format else lookup k (search_query params)))
      × ((download_events_export env params format reply b).1.storage ≡ b.storage)
      × ((download_events_export env params format reply b).1.visited ≡ b.visited)
unfolding download_events_export export_query
download_events_export_lem env params format k reply b =
    (refl, refl, lookup-insert "format" k format (search_query params), refl, refl)
