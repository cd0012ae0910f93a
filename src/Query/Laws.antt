-- ===== src/Query/Laws.antt =====
-- What a query holds under each key after a parameter has been set.
use the_eye.Base.{Option, none, some, String, ◌==◌, ◌≡◌, refl, arith, eqb, if◌then◌else◌}
use the_eye.Base.Dict.{Dict, lookup, lookup-insert}
use the_eye.Query.{Param, undefined, text, number, set_present, set_truthy}
use the_eye.Query.Decimal.{decimal}

-- The text under which a parameter is sent, if it is.
abbrev pub present : Param → Option String
present undefined = none
present (text s) = if s == "" then none else some s
present (number n) = some (decimal n)

abbrev pub truthy : Param → Option String
truthy undefined = none
truthy (text s) = if s == "" then none else some s
truthy (number n) = if eqb n 0 then none else some (decimal n)

-- The first of two.
abbrev pub first : Option String → Option String → Option String
first none o = o
first (some s) o = some s

pub first-none : (o : Option String) → first o none ≡ o
first-none none = refl
first-none (some s) = refl

pub lookup-set_present :
    (k j : String) (p : Param) (q : Dict String)
    → lookup j (set_present k p q) ≡ (if k == j then first (present p) (lookup j q) else lookup j q)
unfolding set_present
lookup-set_present k j undefined q = ground arith
lookup-set_present k j (text s) q = ground (arith, lookup-insert k j s q)
lookup-set_present k j (number n) q = ground (arith, lookup-insert k j (decimal n) q)

pub lookup-set_truthy :
    (k j : String) (p : Param) (q : Dict String)
    → lookup j (set_truthy k p q) ≡ (if k == j then first (truthy p) (lookup j q) else lookup j q)
unfolding set_truthy
lookup-set_truthy k j undefined q = ground arith
lookup-set_truthy k j (text s) q = ground (arith, lookup-insert k j s q)
lookup-set_truthy k j (number n) q = ground (arith, lookup-insert k j (decimal n) q)

pub ruleset query_laws = (lookup-set_present, lookup-set_truthy, first-none)
