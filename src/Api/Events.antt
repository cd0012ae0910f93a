-- ===== src/Api/Events.antt =====
-- Events: the search, its query, and the calls on one event (api-client.ts, types/event.ts).
pub mod Laws
use the_eye.Base.{ℕ, Option, List, [], ◌∷◌, String, ◌⧺◌}
use the_eye.Base.Dict.{Dict, insert}
use the_eye.Json.{Json, str, text_or_null}
use the_eye.Query.{Param, text_param, number_param, set_all}
use the_eye.Http.{Endpoint, get_call, bare_call, body_call}

pub data EventCategory : Type 0 where
  authentication authorization data_access data_modification configuration : EventCategory
  process_execution network financial_transaction administrative system : EventCategory

pub data EventOutcome : Type 0 where
  success failure denied unknown : EventOutcome

pub record EventRead : Type 0 where
  pub id : String
  pub sequence_num : ℕ
  pub tenant_id : String
  pub source_id : String
  pub actor_type : String
  pub actor_id : String
  pub actor_display_name : Option String
  pub event_type : String
  pub event_category : EventCategory
  pub outcome : EventOutcome
  pub severity : String
  pub origin_host : Option String
  pub origin_ip : Option String
  pub origin_application : Option String
  pub occurred_at : String
  pub received_at : String
  pub target_type : Option String
  pub target_id : Option String
  pub change_summary : Option Json
  pub metadata : Json
  pub prev_hash : String
  pub record_hash : String

pub record EventSearchParams : Type 0 where
  pub actor_id : Option String
  pub event_type : Option String
  pub event_category : Option String
  pub outcome : Option String
  pub q : Option String
  pub limit : Option ℕ
  pub offset : Option ℕ

-- Object.entries(params); the order of the entries has no meaning in the query.
abbrev pub entries : EventSearchParams → List (String × Param)
entries p =
    ("actor_id", text_param p.actor_id)
    ∷ ("event_type", text_param p.event_type)
    ∷ ("event_category", text_param p.event_category)
    ∷ ("outcome", text_param p.outcome)
    ∷ ("q", text_param p.q)
    ∷ ("limit", number_param p.limit)
    ∷ ("offset", number_param p.offset)
    ∷ []

unfoldable pub search_query : EventSearchParams → Dict String
unfolding set_all
search_query p = set_all (entries p) []

-- The query of `downloadEventsExport`.
unfoldable pub export_query : EventSearchParams → String → Dict String
unfolding search_query insert
export_query p format = insert "format" format (search_query p)

pub data EventCall : Type 0 where
  search_events : EventSearchParams → EventCall
  get_event : (id : String) → EventCall

unfoldable pub event_endpoint : EventCall → Endpoint
event_endpoint (search_events params) = get_call "/v1/events" (search_query params)
event_endpoint (get_event id) = get_call ("/v1/events/" ⧺ id) []

pub record EventFlag : Type 0 where
  pub id : String
  pub event_id : String
  pub flag_type : String
  pub note : Option String
  pub flagged_by_name : Option String
  pub created_at : String

pub data FlagCall : Type 0 where
  flag_event : (event_id flag_type : String) (note : Option String) → FlagCall
  get_event_flags : (event_id : String) → FlagCall
  delete_flag : (event_id flag_id : String) → FlagCall

unfoldable pub flag_endpoint : FlagCall → Endpoint
flag_endpoint (flag_event event_id flag_type note) =
    body_call "POST" ("/v1/events/" ⧺ event_id ⧺ "/flags")
      (("flag_type", str flag_type) ∷ ("note", text_or_null note) ∷ [])
flag_endpoint (get_event_flags event_id) = get_call ("/v1/events/" ⧺ event_id ⧺ "/flags") []
flag_endpoint (delete_flag event_id flag_id) =
    bare_call "DELETE" ("/v1/events/" ⧺ event_id ⧺ "/flags/" ⧺ flag_id)
