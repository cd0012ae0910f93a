-- ===== src/Proxy.antt =====
-- The proxy in front of the dashboard's pages (frontend/src/proxy.ts): the nonce of each request and
-- the content security policy of its answer. The nonce is a parameter, and header names are in lower
-- case.
pub mod Policy
use the_eye.Base.{Option, List, [], ◌∷◌, String, ◌⧺◌, or_else}
use the_eye.Base.Dict.{Dict, insert}

-- process.env.NEXT_PUBLIC_API_BASE_URL ?? "http://localhost:8000"
abbrev pub api_origin : Option String → String
api_origin env = or_else env "http://localhost:8000"

abbrev pub more_directives : Option String → String → List String
more_directives env nonce =
    ("script-src 'self' 'nonce-" ⧺ nonce ⧺ "' 'strict-dynamic'")
    ∷ ("connect-src 'self' " ⧺ api_origin env)
    ∷ "img-src 'self' data:"
    ∷ "style-src 'self' 'unsafe-inline'"
    ∷ "font-src 'self'"
    ∷ "object-src 'none'"
    ∷ "base-uri 'self'"
    ∷ "form-action 'self'"
    ∷ "frame-ancestors 'none'"
    ∷ "worker-src 'self'"
    ∷ []

abbrev pub directives : Option String → String → List String
directives env nonce = "default-src 'self'" ∷ more_directives env nonce

-- join("; ")
unfoldable pub join_policy : List String → String
join_policy [] = ""
join_policy (d ∷ []) = d
join_policy (d ∷ e ∷ ds) = d ⧺ "; " ⧺ join_policy (e ∷ ds)

-- The headers that the page is rendered with, and those added to its answer.
pub record Forwarded : Type 0 where
  pub request_headers : Dict String
  pub response_headers : Dict String

unfoldable pub proxy : Option String → String → Dict String → Forwarded
unfolding join_policy insert
proxy env nonce headers = record {
  request_headers = insert "x-nonce" nonce headers;
  response_headers = insert "content-security-policy" (join_policy (directives env nonce)) [];
}
