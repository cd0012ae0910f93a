-- ===== src/Http.antt =====
-- What `request` of both API clients (frontend/src/lib/api-client.ts, staff-portal/src/lib/
-- api-client.ts) shares: the options of a call, the request built from them, what `fetch` may
-- answer, and how an answer becomes a value or an error. `fetch` itself is a parameter.
mod Settle
unfoldable pub use Settle.*
use the_eye.Base.{true, Option, none, some, List, [], ◌∷◌, String, or_else}
use the_eye.Base.Dict.{Dict, merge}
use the_eye.Json.{Json, object}
use the_eye.Browser.{Wire}

-- RequestInit, as far as the clients use it
pub record Options : Type 0 where
  pub method : Option String
  pub headers : Dict String
  pub body : Option Json

-- The arguments of a call of `request`; the query string is kept as its entries.
pub record Endpoint : Type 0 where
  pub path : String
  pub query : Dict String
  pub options : Options

abbrev pub no_options : Options
no_options = record { method = none; headers = []; body = none }

abbrev pub json_headers : Dict String
json_headers = ("Content-Type", "application/json") ∷ []

-- process.env.NEXT_PUBLIC_API_BASE_URL ?? "http://localhost:8000"
abbrev pub api_base : Option String → String
api_base env = or_else env "http://localhost:8000"

-- The request that `request` sends: the call's headers written over the client's, with credentials.
unfoldable pub wire : Option String → Endpoint → Wire
unfolding merge
wire env e = record {
  origin = api_base env;
  path = e.path;
  query = e.query;
  method = or_else e.options.method "GET";
  headers = merge json_headers e.options.headers;
  include = true;
  body = e.options.body;
}

-- Calls of `request` with the method left out, and with a method and a body or none.
abbrev pub get_call : String → Dict String → Endpoint
get_call path query = record { path = path; query = query; options = no_options }

abbrev pub bare_call : String → String → Endpoint
bare_call method path = record {
  path = path;
  query = [];
  options = record { method = some method; headers = []; body = none };
}

abbrev pub body_call : String → String → List (String × Json) → Endpoint
body_call method path properties = record {
  path = path;
  query = [];
  options = record { method = some method; headers = []; body = some (object properties) };
}

-- The same, where the call names the JSON content type itself.
abbrev pub with_json_headers : Endpoint → Endpoint
with_json_headers e = record e { options = record e.options { headers = json_headers } }
