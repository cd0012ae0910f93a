-- ===== src/EventParts/Laws.antt =====
-- What the filters show is what the server is asked.
use the_eye.Base.{or_else, Option, none, some, String, ◌≡◌, ◌==◌, ◌∙◌, refl, if◌then◌else◌}
use the_eye.Base.Dict.{lookup}
use the_eye.Query.{text_param}
use the_eye.Query.Decimal.{decimal}
use the_eye.Query.Laws.{present}
use the_eye.Api.Events.{EventSearchParams, search_query}
use the_eye.Api.Events.Laws.{search_query_lem}
use the_eye.EventParts.{
  FilterField, actor_field, type_field, category_field, outcome_field, filter_value, set_filters,
}

-- The key of a filter in the query.
abbrev pub key_of : FilterField → String
key_of actor_field = "actor_id"
key_of type_field = "event_type"
key_of category_field = "event_category"
key_of outcome_field = "outcome"

-- A text, where there is something in it.
abbrev pub not_nil : String → Option String
not_nil s = if s == "" then none else some s

present-or_else : (o : Option String) → present (text_param o) ≡ not_nil (or_else o "")
present-or_else none = refl
present-or_else (some s) = refl

lookup-search_query :
    (g : FilterField) (v : EventSearchParams)
    → lookup (key_of g) (search_query v) ≡ not_nil (filter_value g v)
unfolding filter_value
lookup-search_query actor_field v = (search_query_lem v).0 ∙ present-or_else v.actor_id
lookup-search_query type_field v = (search_query_lem v).1 ∙ present-or_else v.event_type
lookup-search_query category_field v = (search_query_lem v).2 ∙ present-or_else v.event_category
lookup-search_query outcome_field v = (search_query_lem v).3 ∙ present-or_else v.outcome

filter_value-set_filters :
    (f : FilterField) (s : String) (v : EventSearchParams) → filter_value f (set_filters f s v) ≡ s
unfolding filter_value set_filters
filter_value-set_filters actor_field s v = refl
filter_value-set_filters type_field s v = refl
filter_value-set_filters category_field s v = refl
filter_value-set_filters outcome_field s v = refl

-- After a text is typed into a filter, the filter shows it, the query of the next search asks for
-- exactly what each of the four filters shows (an empty one is left out), and it asks for the first
-- event on.
pub search_query-set_filters :
    (f : FilterField) (s : String) (v : EventSearchParams)
    → let w = set_filters f s v in
      (filter_value f w ≡ s)
      × ((g : FilterField) → lookup (key_of g) (search_query w) ≡ not_nil (filter_value g w))
      × (lookup "offset" (search_query w) ≡ some "0")
unfolding set_filters decimal
search_query-set_filters f s v = (
  filter_value-set_filters f s v,
  λ g. lookup-search_query g (set_filters f s v),
  (search_query_lem (set_filters f s v)).6,
)
