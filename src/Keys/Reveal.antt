-- ===== src/Keys/Reveal.antt =====
-- The dialog that shows a new API key once (frontend/src/app/admin/api-keys/page.tsx): the variables
-- for the agent, the button that copies a text, and how a time is worded on the page.
use Prim.Native.Char.{Char, code}
use Prim.Native.String.{[], ◌∷◌}
use mathlib.Core.List.{List, [], ◌∷◌}
use text.Mathlib.TextLemmas.{nil-append, cons-append, append_assoc}
use the_eye.Base.{
  ℕ, ◌-◌, ◌/◌, Bool, true, false, not, ◌&&◌, Option, none, some, String, ◌⧺◌, ◌≡◌, ◌∙◌, ap, refl,
  arith, eqb, ltb, map, all, or_else, and_parts, if◌then◌else◌,
}
use the_eye.Query.Decimal.{decimal}
use the_eye.Text.Lines.{split_lines, join_lines, is_one_line, split_lines-join_lines}

-- process.env.NEXT_PUBLIC_API_BASE_URL ?? "https://your-backend.railway.app"
abbrev pub api_url : Option String → String
api_url env = or_else env "https://your-backend.railway.app"

unfoldable pub agent_variables : Option String → String → String → String
agent_variables env tenant_id full_key =
    "THE_EYE_TENANT_ID="
    ⧺ tenant_id
    ⧺ "\n"
    ⧺ "THE_EYE_API_KEY="
    ⧺ full_key
    ⧺ "\n"
    ⧺ "THE_EYE_API_URL="
    ⧺ api_url env

-- The clipboard and the mark that shows for two seconds after a copy.
pub record CopyButton : Type 0 where
  pub clipboard : String
  pub copied : Bool

abbrev pub copy : String → CopyButton → CopyButton
copy text b = record { clipboard = text; copied = true }

abbrev pub copy_timeout : CopyButton → CopyButton
copy_timeout b = record b { copied = false }

-- timeAgo, from the time now and the time given, in milliseconds
unfoldable pub key_time_ago : ℕ → Option ℕ → String
key_time_ago now none = "Never"
key_time_ago now (some t) =
    let mins = (now - t) / 60000 in
    let hrs = mins / 60 in
    if ltb mins 1
    then "Just now"
    else if ltb mins 60
    then decimal mins ⧺ "m ago"
    else if ltb hrs 24
    then decimal hrs ⧺ "h ago"
    else decimal (hrs / 24) ⧺ "d ago"

-- How the agent's environment is read: on each line, the name before the first `=` and the value.
abbrev pub variable : String → String × String
variable [] = ([], [])
variable (c ∷ s) =
    let (name, value) = variable s in if eqb (code c) b'=' then ([], s) else (c ∷ name, value)

abbrev pub read_variables : String → List (String × String)
read_variables text = map variable (split_lines text)

has_no_equals : String → Bool
has_no_equals [] = true
has_no_equals (c ∷ s) = not (eqb (code c) b'=') && has_no_equals s

variable_lem : (n t : String) → has_no_equals n ≡ true → variable (n ⧺ "=" ⧺ t) ≡ (n, t)
unfolding has_no_equals
variable_lem [] t h = rw nil-append (rw cons-append (rw nil-append refl))
variable_lem (c ∷ s) t h =
    let (first, rest) = and_parts (not (eqb (code c) b'=')) (has_no_equals s) h in
    rw cons-append (rw (first_name c first) (rw (variable_lem s t rest) refl))
  where
    first_name : (c : Char) → not (eqb (code c) b'=') ≡ true → eqb (code c) b'=' ≡ false
    first_name c h = ground (arith, h)

one_line-append :
    (s t : String) → is_one_line s ≡ true → is_one_line t ≡ true → is_one_line (s ⧺ t) ≡ true
one_line-append [] t h k = rw nil-append k
one_line-append (c ∷ s) t h k =
    let (first, rest) = and_parts (not (eqb (code c) 10)) (is_one_line s) h in
    rw (cons-append, first) (one_line-append s t rest k)

-- Its three lines.
line_of : String → String → String
line_of n t = (n ⧺ "=") ⧺ t

agent_variables-join_lines :
    (env : Option String) (tenant_id full_key : String)
    → agent_variables env tenant_id full_key
      ≡ join_lines (
          line_of "THE_EYE_TENANT_ID" tenant_id
          ∷ line_of "THE_EYE_API_KEY" full_key
          ∷ line_of "THE_EYE_API_URL" (api_url env)
          ∷ [])
unfolding agent_variables join_lines line_of
agent_variables-join_lines env tenant_id full_key =
    rw (append_assoc "THE_EYE_TENANT_ID=" tenant_id, append_assoc "THE_EYE_API_KEY=" full_key) refl

variable-line_of : (n t : String) → has_no_equals n ≡ true → variable (line_of n t) ≡ (n, t)
unfolding line_of
variable-line_of n t h = rw (append_assoc n "=" t) (variable_lem n t h)

-- If neither the tenant's identifier, the key nor the API's address has a line break, the text for
-- the agent reads as three variables: the identifier, the key and the address.
pub read_variables-agent_variables :
    (env : Option String) (tenant_id full_key : String)
    → is_one_line tenant_id ≡ true
    → is_one_line full_key ≡ true
    → is_one_line (api_url env) ≡ true
    → read_variables (agent_variables env tenant_id full_key)
      ≡ ("THE_EYE_TENANT_ID", tenant_id)
        ∷ ("THE_EYE_API_KEY", full_key)
        ∷ ("THE_EYE_API_URL", api_url env)
        ∷ []
unfolding has_no_equals line_of
read_variables-agent_variables env tenant_id full_key h k u =
    ap read_variables (agent_variables-join_lines env tenant_id full_key)
    ∙ ap (map variable) (
        split_lines-join_lines (line_of "THE_EYE_TENANT_ID" tenant_id)
          (line_of "THE_EYE_API_KEY" full_key ∷ line_of "THE_EYE_API_URL" (api_url env) ∷ [])
          one_lines)
    ∙ rw
        (
          variable-line_of "THE_EYE_TENANT_ID" tenant_id refl,
          variable-line_of "THE_EYE_API_KEY" full_key refl,
          variable-line_of "THE_EYE_API_URL" (api_url env) refl,
        )
        refl
  where
    one_lines :
        all is_one_line (
          line_of "THE_EYE_TENANT_ID" tenant_id
          ∷ line_of "THE_EYE_API_KEY" full_key
          ∷ line_of "THE_EYE_API_URL" (api_url env)
          ∷ [])
        ≡ true
    one_lines =
        rw
          (
            one_line-append "THE_EYE_TENANT_ID=" tenant_id refl h,
            one_line-append "THE_EYE_API_KEY=" full_key refl k,
            one_line-append "THE_EYE_API_URL=" (api_url env) refl u,
          )
          refl
