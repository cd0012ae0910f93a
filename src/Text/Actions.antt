-- ===== src/Text/Actions.antt =====
-- How the staff portal words the action of an entry of its log: `actionLabel` of
-- staff-portal/src/app/audit/page.tsx.
use Prim.Native.Char.{Char, code}
use Prim.Native.String.{[], ◌∷◌}
use mathlib.Core.List.{List, [], ◌∷◌}
use the_eye.Base.{String, ◌⧺◌, eqb, map, or_else, if◌then◌else◌}
use the_eye.Base.Dict.{Dict, lookup}

-- split(".")
abbrev to_first : Char → List String → List String
to_first c [] = (c ∷ []) ∷ []
to_first c (w ∷ ws) = (c ∷ w) ∷ ws

unfoldable pub split_dots : String → List String
split_dots [] = [] ∷ []
split_dots (c ∷ s) =
    let rest = split_dots s in if eqb (code c) b'.' then [] ∷ rest else to_first c rest

-- join(sep)
unfoldable pub join : String → List String → String
join sep [] = []
join sep (w ∷ []) = w
join sep (w ∷ v ∷ ws) = w ⧺ sep ⧺ join sep (v ∷ ws)

abbrev action_names : Dict String
action_names =
    ("tenant.deletion.approved", "Deletion Approved")
    ∷ ("tenant.deletion.rejected", "Deletion Rejected")
    ∷ ("tenant.deletion.scheduled", "Deletion Scheduled")
    ∷ ("tenant.deletion.executed", "Deletion Executed")
    ∷ []

-- The upper case of a first character, which may be several, is the parameter.
abbrev first_upper : (Char → String) → String → String
first_upper upper [] = []
first_upper upper (c ∷ s) = upper c ⧺ s

unfoldable pub action_label : (Char → String) → String → String
unfolding split_dots join lookup
action_label upper action =
    or_else (lookup action action_names) (join " → " (map (first_upper upper) (split_dots action)))
