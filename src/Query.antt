-- ===== src/Query.antt =====
-- Query strings: how the clients fill a `URLSearchParams` from a call's arguments. Only `set` is
-- used, so its entries are a dictionary; the percent-encoding of `toString` is the platform's.
pub mod Decimal
pub mod Laws
use the_eye.Base.{ℕ, Option, none, some, List, [], ◌∷◌, String, ◌==◌, eqb, if◌then◌else◌}
use the_eye.Base.Dict.{Dict, insert}
use the_eye.Query.Decimal.{decimal}

-- A value of a parameter object.
pub data Param : Type 0 where
  undefined : Param
  text : String → Param
  number : ℕ → Param

abbrev pub text_param : Option String → Param
text_param none = undefined
text_param (some s) = text s

abbrev pub number_param : Option ℕ → Param
number_param none = undefined
number_param (some n) = number n

-- if (value !== undefined && value !== "") query.set(key, String(value))
unfoldable pub set_present : String → Param → Dict String → Dict String
set_present k undefined q = q
set_present k (text s) q = if s == "" then q else insert k s q
set_present k (number n) q = insert k (decimal n) q

-- Object.entries(params).forEach(…)
unfoldable pub set_all : List (String × Param) → Dict String → Dict String
unfolding set_present
set_all [] q = q
set_all ((k, p) ∷ ps) q = set_all ps (set_present k p q)

-- if (value) q.set(key, String(value)): here 0 is left out too.
unfoldable pub set_truthy : String → Param → Dict String → Dict String
set_truthy k undefined q = q
set_truthy k (text s) q = if s == "" then q else insert k s q
set_truthy k (number n) q = if eqb n 0 then q else insert k (decimal n) q
