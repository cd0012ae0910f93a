-- ===== src/Api/Events/Laws.antt =====
-- What the query of an event search says.
use the_eye.Base.{some, String, ◌≡◌, ◌==◌, if◌then◌else◌}
use the_eye.Base.Dict.{lookup, lookup-insert}
use the_eye.Query.{text_param, number_param}
use the_eye.Query.Laws.{present, query_laws}
use the_eye.Api.Events.{EventSearchParams, search_query, export_query}

-- Under each of its keys the query holds exactly the search parameter that is given and not the
-- empty text; the number 0 counts as given.
pub search_query_lem :
    (p : EventSearchParams)
    → (lookup "actor_id" (search_query p) ≡ present (text_param p.actor_id))
      × (lookup "event_type" (search_query p) ≡ present (text_param p.event_type))
      × (lookup "event_category" (search_query p) ≡ present (text_param p.event_category))
      × (lookup "outcome" (search_query p) ≡ present (text_param p.outcome))
      × (lookup "q" (search_query p) ≡ present (text_param p.q))
      × (lookup "limit" (search_query p) ≡ present (number_param p.limit))
      × (lookup "offset" (search_query p) ≡ present (number_param p.offset))
unfolding search_query lookup
search_query_lem p = (
  simp query_laws,
  simp query_laws,
  simp query_laws,
  simp query_laws,
  simp query_laws,
  simp query_laws,
  simp query_laws,
)

-- The export's query is the search's with the format added: every other key is as in the search.
pub lookup-export_query :
    (p : EventSearchParams) (format k : String)
    → lookup k (export_query p format)
      ≡ (if "format" == k then some format else lookup k (search_query p))
unfolding export_query
lookup-export_query p format k = lookup-insert "format" k format (search_query p)
