-- ===== src/Json/Codec.antt =====
-- `JSON.stringify` and `JSON.parse`, which the browser supplies, as an interface: what the clients
-- rely on is that a flat object of texts and nulls with distinct keys survives the two, and that
-- parsing the empty text throws (`none`).
use the_eye.Base.{Bool, true, not, ◌&&◌, Option, none, some, List, [], ◌∷◌, String, ◌≡◌, ◌==◌, any}
use the_eye.Json.{Json, flat}

abbrev pub has_distinct_keys : List (String × Option String) → Bool
has_distinct_keys [] = true
has_distinct_keys ((k, v) ∷ ps) = not (any (λ p. p.0 == k) ps) && has_distinct_keys ps

pub record Codec : Type 0 where
  pub stringify : Json → String
  pub parse : String → Option Json
  pub parse-stringify :
      (ps : List (String × Option String))
      → has_distinct_keys ps ≡ true
      → parse (stringify (flat ps)) ≡ some (flat ps)
  pub parse_empty : parse "" ≡ none
