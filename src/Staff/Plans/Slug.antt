-- ===== src/Staff/Plans/Slug.antt =====
-- The identifier typed into the dialog of a plan (PlanModal of staff-portal/src/app/plans/page.tsx
-- and app/billing/page.tsx). Lower case is a parameter.
use Prim.Native.Char.{code}
use Prim.Native.String.{[], ◌∷◌}
use the_eye.Base.{
  ℕ, ◌+◌, Bool, true, ◌&&◌, ◌||◌, String, ◌≡◌, refl, arith, ap, leb, ltb, eqb, Bool-cases, inl, inr,
  if◌then◌else◌,
}
use the_eye.Text.{text_length}
use the_eye.Staff.Plans.Form.{PlanForm}

-- [a-z0-9-]
abbrev pub is_plan_char : ℕ → Bool
is_plan_char n = leb b'a' n && leb n b'z' || leb b'0' n && leb n b'9' || eqb n b'-'

-- replace(/[^a-z0-9-]/g, "-"), on code units: a character beyond the basic plane is two of them.
unfoldable pub dash_each : String → String
dash_each [] = []
dash_each (c ∷ s) =
    let rest = dash_each s in
    if is_plan_char (code c)
    then c ∷ rest
    else if ltb (code c) 65536
    then "-" ∷ rest
    else "-" ∷ "-" ∷ rest

unfoldable pub set_slug : (String → String) → String → PlanForm → PlanForm
unfolding dash_each
set_slug lower typed form = record form { slug = dash_each (lower typed) }

abbrev pub is_plan_slug : String → Bool
is_plan_slug [] = true
is_plan_slug (c ∷ s) = is_plan_char (code c) && is_plan_slug s

dash_each_lem :
    (s : String) → (is_plan_slug (dash_each s) ≡ true) × (text_length (dash_each s) ≡ text_length s)
unfolding dash_each
dash_each_lem [] = (refl, refl)
dash_each_lem (c ∷ s) =
    let (right, long) = dash_each_lem s in
    elim (Bool-cases (is_plan_char (code c))) [
      | inl e ↦ rw (e, e) (right, ap (λ n. (if ltb (code c) 65536 then 1 else 2) + n) long)
      | inr e ↦ elim (Bool-cases (ltb (code c) 65536)) [
        | inl k ↦ rw (e, k) (right, ap (λ n. 1 + n) long)
        | inr k ↦ rw (e, k) (right, omega (arith, long))
      ]
    ]

dash_each_of_slug : (s : String) → is_plan_slug s ≡ true → dash_each s ≡ s
unfolding dash_each
dash_each_of_slug [] h = refl
dash_each_of_slug (c ∷ s) h = elim (Bool-cases (is_plan_char (code c))) [
  | inl e ↦ rw e (ap (λ r. c ∷ r) (dash_each_of_slug s (ground (arith, h))))
  | inr e ↦ ground (arith, h, e)
]

-- Whatever is typed, the identifier is of small letters, digits and dashes, has as many code units
-- as the typed text in lower case, and typing it again changes nothing.
set_slug_lem :
    (lower : String → String) (typed : String) (form : PlanForm)
    → let slug = (set_slug lower typed form).slug in
      (is_plan_slug slug ≡ true)
      × (text_length slug ≡ text_length (lower typed))
      × (dash_each slug ≡ slug)
unfolding set_slug
set_slug_lem lower typed form =
    let (right, long) = dash_each_lem (lower typed) in
    (right, long, dash_each_of_slug (dash_each (lower typed)) right)
