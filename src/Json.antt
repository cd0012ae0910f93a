-- ===== src/Json.antt =====
-- JSON values, as `JSON.stringify` is given them and `JSON.parse` returns them (every `lib/*.ts`).
-- Numbers are natural numbers, as the clients send counts and limits, or `hundredths`, as they send
-- prices.
pub mod Codec
pub mod Sample
use the_eye.Base.{ℕ, Bool, Option, none, some, List, [], ◌∷◌, String, ◌==◌, if◌then◌else◌}

mutual
  pub data Json : Type 0 where
    null : Json
    bool : Bool → Json
    num : ℕ → Json
    hundredths : ℕ → Json
    str : String → Json
    arr : Items → Json
    obj : Fields → Json

  pub data Items : Type 0 where
    nil : Items
    cons : Json → Items → Items

  pub data Fields : Type 0 where
    end : Fields
    field : String → Json → Fields → Fields

-- An object literal from its properties.
abbrev pub fields_of : List (String × Json) → Fields
fields_of [] = end
fields_of ((k, v) ∷ ps) = field k v (fields_of ps)

abbrev pub object : List (String × Json) → Json
object ps = obj (fields_of ps)

abbrev pub text_or_null : Option String → Json
text_or_null none = null
text_or_null (some s) = str s

-- A property whose value is `undefined` is left out by `JSON.stringify`.
abbrev pub optional : String → Option Json → List (String × Json) → List (String × Json)
optional k none ps = ps
optional k (some v) ps = (k, v) ∷ ps

-- Reading a property of a value: `undefined` is `none`.
unfoldable pub get_field : String → Fields → Option Json
get_field k end = none
get_field k (field j v fs) = if j == k then some v else get_field k fs

unfoldable pub property : String → Json → Option Json
unfolding get_field
property k (obj fs) = get_field k fs
property k _ = none

abbrev pub as_text : Option Json → Option String
as_text (some (str s)) = some s
as_text _ = none

-- A flat object: text or `null` under each key.
abbrev pub flat_fields : List (String × Option String) → Fields
flat_fields [] = end
flat_fields ((k, v) ∷ ps) = field k (text_or_null v) (flat_fields ps)

abbrev pub flat : List (String × Option String) → Json
flat ps = obj (flat_fields ps)
