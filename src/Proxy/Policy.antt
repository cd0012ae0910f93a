-- ===== src/Proxy/Policy.antt =====
-- A browser that reads the policy finds in it what is required of it, written out apart from the code.
use Prim.Native.Char.{Char, code}
use Prim.Native.String.{[], ◌∷◌}
use mathlib.Core.List.{List, [], ◌∷◌}
use text.Mathlib.TextLemmas.{nil-append, cons-append, append_assoc}
use the_eye.Base.{
  or_else, ◌==◌, and_parts, Bool, true, false, not, ◌&&◌, ◌⧺◌, ◌≡◌, ◌∙◌, refl, ap, arith, eqb, map,
  String, Option, some, all, if◌then◌else◌,
}
use the_eye.Base.Dict.{Dict, lookup, lookup-insert}
use the_eye.Proxy.{more_directives, api_origin, directives, join_policy, proxy}

-- The directives of a policy are told apart by semicolons, and a space in front of one is not read.
abbrev to_first : Char → List String → List String
to_first c [] = (c ∷ []) ∷ []
to_first c (w ∷ ws) = (c ∷ w) ∷ ws

abbrev split : String → List String
split [] = [] ∷ []
split (c ∷ s) = let rest = split s in if eqb (code c) b';' then [] ∷ rest else to_first c rest

abbrev unspaced : String → String
unspaced [] = []
unspaced (c ∷ s) = if eqb (code c) b' ' then s else c ∷ s

abbrev read_policy : String → List String
read_policy s = map unspaced (split s)

-- A text without a semicolon.
abbrev is_plain : String → Bool
is_plain [] = true
is_plain (c ∷ s) = not (eqb (code c) b';') && is_plain s

plain_cons : (c : Char) (s : String) → is_plain (c ∷ s) ≡ true → eqb (code c) b';' ≡ false
plain_cons c s h = ground (arith, h)

plain_rest : (c : Char) (s : String) → is_plain (c ∷ s) ≡ true → is_plain s ≡ true
plain_rest c s h = ground (arith, h)

split_plain : (s : String) → is_plain s ≡ true → split s ≡ s ∷ []
split_plain [] h = refl
split_plain (c ∷ s) h = rw (plain_cons c s h) (rw (split_plain s (plain_rest c s h)) refl)

split-append : (s t : String) → is_plain s ≡ true → split (s ⧺ ";" ⧺ t) ≡ s ∷ split t
split-append [] t h = rw nil-append (rw cons-append (rw nil-append refl))
split-append (c ∷ s) t h =
    rw cons-append (rw (plain_cons c s h) (rw (split-append s t (plain_rest c s h)) refl))

plain-append : (s t : String) → is_plain s ≡ true → is_plain t ≡ true → is_plain (s ⧺ t) ≡ true
plain-append [] t h k = rw nil-append k
plain-append (c ∷ s) t h k =
    rw cons-append (rw (plain_cons c s h) (plain-append s t (plain_rest c s h) k))

after_semicolon : (r : String) → ("; " ⧺ r) ≡ (";" ⧺ (" " ∷ r))
after_semicolon r = rw (cons-append, cons-append, nil-append) (rw (cons-append, nil-append) refl)

split-join_policy :
    (d : String) (ds : List String)
    → all is_plain (d ∷ ds) ≡ true
    → split (join_policy (d ∷ ds)) ≡ d ∷ map (λ e. " " ∷ e) ds
unfolding join_policy
split-join_policy d [] h = split_plain d (ground (arith, h))
split-join_policy d (e ∷ es) h =
    let (first, rest) = and_parts (is_plain d) (all is_plain (e ∷ es)) h in
    rw (after_semicolon (join_policy (e ∷ es))) (
      rw (split-append d (" " ∷ join_policy (e ∷ es)) first)
        (rw (split-join_policy e es rest) refl))

unspaced-spaced : (ds : List String) → map unspaced (map (λ e. " " ∷ e) ds) ≡ ds
unspaced-spaced [] = refl
unspaced-spaced (d ∷ ds) = rw (unspaced-spaced ds) refl

all-directives :
    (env : Option String) (nonce : String)
    → is_plain (api_origin env) ≡ true
    → is_plain nonce ≡ true
    → all is_plain (directives env nonce) ≡ true
all-directives env nonce h k =
    rw
      (
        plain-append "script-src 'self' 'nonce-" (nonce ⧺ "' 'strict-dynamic'") refl
            (plain-append nonce "' 'strict-dynamic'" k refl),
        plain-append "connect-src 'self' " (api_origin env) refl h,
      )
      refl

read_policy-join_policy :
    (d : String) (ds : List String)
    → all is_plain (d ∷ ds) ≡ true
    → read_policy (join_policy (d ∷ ds)) ≡ unspaced d ∷ ds
read_policy-join_policy d ds h =
    ap (map unspaced) (split-join_policy d ds h) ∙ ap (λ es. unspaced d ∷ es) (unspaced-spaced ds)

-- A directive is its name and, behind the first space, its sources.
abbrev onto_name : Char → String × String → String × String
onto_name c (name, sources) = (c ∷ name, sources)

abbrev directive_of : String → String × String
directive_of [] = ([], [])
directive_of (c ∷ s) =
    let rest = directive_of s in if eqb (code c) b' ' then ([], s) else onto_name c rest

abbrev pub read_directives : String → List (String × String)
read_directives s = map directive_of (read_policy s)

-- What the policy has to say: where each kind of resource may come from. Scripts need the nonce or
-- come from a script that has it, plugins and frames around the page are refused.
abbrev pub required : Option String → String → List (String × String)
required env nonce =
    ("default-src", "'self'")
    ∷ ("script-src", "'self' 'nonce-" ⧺ nonce ⧺ "' 'strict-dynamic'")
    ∷ ("connect-src", "'self' " ⧺ or_else env "http://localhost:8000")
    ∷ ("img-src", "'self' data:")
    ∷ ("style-src", "'self' 'unsafe-inline'")
    ∷ ("font-src", "'self'")
    ∷ ("object-src", "'none'")
    ∷ ("base-uri", "'self'")
    ∷ ("form-action", "'self'")
    ∷ ("frame-ancestors", "'none'")
    ∷ ("worker-src", "'self'")
    ∷ []

abbrev has_no_space : String → Bool
has_no_space [] = true
has_no_space (c ∷ s) = not (eqb (code c) b' ') && has_no_space s

false_of_not : (b : Bool) → not b ≡ true → b ≡ false
false_of_not b h = ground arith

directive_of-spaced :
    (name s : String) → has_no_space name ≡ true → directive_of (name ⧺ " " ⧺ s) ≡ (name, s)
directive_of-spaced [] s h = rw nil-append (rw cons-append (rw nil-append refl))
directive_of-spaced (c ∷ name) s h =
    let (other, rest) = and_parts (not (eqb (code c) b' ')) (has_no_space name) h in
    rw cons-append (rw (false_of_not _ other) (rw (directive_of-spaced name s rest) refl))

directive_of_script :
    (s : String)
    → directive_of ("script-src 'self' 'nonce-" ⧺ s) ≡ ("script-src", "'self' 'nonce-" ⧺ s)
directive_of_script s =
    ap directive_of (append_assoc "script-src" " 'self' 'nonce-" s)
    ∙ (ap (λ t. directive_of ("script-src" ⧺ t)) (append_assoc " " "'self' 'nonce-" s)
        ∙ directive_of-spaced "script-src" ("'self' 'nonce-" ⧺ s) refl)

directive_of_connect :
    (s : String) → directive_of ("connect-src 'self' " ⧺ s) ≡ ("connect-src", "'self' " ⧺ s)
directive_of_connect s =
    ap directive_of (append_assoc "connect-src" " 'self' " s)
    ∙ (ap (λ t. directive_of ("connect-src" ⧺ t)) (append_assoc " " "'self' " s)
        ∙ directive_of-spaced "connect-src" ("'self' " ⧺ s) refl)

directives-required :
    (env : Option String) (nonce : String)
    → map directive_of (directives env nonce) ≡ required env nonce
directives-required env nonce =
    rw (directive_of_script (nonce ⧺ "' 'strict-dynamic'"))
      (rw (directive_of_connect (api_origin env)) refl)

-- If neither the API's origin nor the nonce has a semicolon, then for a request with any headers a
-- browser reads the policy of the answer as just the eleven directives of `required`, in that order:
-- their names and sources are written out there apart from the code, scripts with the nonce,
-- connections with the API's origin, and 'none' for plugins and for frames around the page. The page
-- is rendered with the headers of the request, except that `x-nonce` is the nonce of the policy,
-- whatever the request says.
pub read_policy-proxy :
    (env : Option String) (nonce : String) (headers : Dict String)
    → is_plain (api_origin env) ≡ true
    → is_plain nonce ≡ true
    → let f = proxy env nonce headers in
      (p : String) × (lookup "content-security-policy" f.response_headers ≡ some p)
      × (read_directives p ≡ required env nonce)
      × ((name : String)
          → lookup name f.request_headers
            ≡ (if "x-nonce" == name then some nonce else lookup name headers))
unfolding proxy
read_policy-proxy env nonce headers h k = (
  join_policy (directives env nonce),
  lookup-insert "content-security-policy" "content-security-policy" _ [],
  ap (map directive_of) (
        read_policy-join_policy "default-src 'self'" (more_directives env nonce)
          (all-directives env nonce h k))
      ∙ directives-required env nonce,
  λ name. lookup-insert "x-nonce" name nonce headers,
)
