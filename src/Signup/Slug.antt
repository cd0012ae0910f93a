-- ===== src/Signup/Slug.antt =====
-- The identifier that the page proposes has the form that its field and the server ask for.
use Prim.Native.Char.{Char, code}
use Prim.Native.String.{[], ◌∷◌}
use the_eye.Base.{
  ℕ, Bool-cases, Bool, true, false, not, ◌&&◌, String, ◌≡◌, ◌≢◌, ◌⊎◌, inl, inr, refl, arith,
  if◌then◌else◌,
}
use the_eye.Signup.Dashes.{is_slug_char, is_dash, dashes, strip_leading, strip_trailing}
use the_eye.Signup.{slug}

-- Characters of the identifier with no two dashes together; the flag says that the character before
-- was a dash.
abbrev spaced : Bool → String → Bool
spaced after [] = true
spaced after (c ∷ s) =
    if is_slug_char (code c) then spaced false s else is_dash (code c) && not after && spaced true s

-- The same, with no dash at the end: after a dash a character of the identifier follows.
abbrev pub joined : Bool → String → Bool
joined after [] = not after
joined after (c ∷ s) =
    if is_slug_char (code c) then joined false s else is_dash (code c) && not after && joined true s

-- Empty, or groups of letters and digits with single dashes between them:
-- ^([a-z0-9]+(-[a-z0-9]+)*)?$
abbrev pub is_slug : String → Bool
is_slug [] = true
is_slug (c ∷ s) = joined true (c ∷ s)

spaced-dashes : (run : Bool) (s : String) → spaced run (dashes run s) ≡ true
unfolding dashes
spaced-dashes run [] = refl
spaced-dashes true (c ∷ s) = ground (arith, spaced-dashes false s, spaced-dashes true s)
spaced-dashes false (c ∷ s) = ground (arith, spaced-dashes false s, spaced-dashes true s)

spaced-strip_leading : (s : String) → spaced false s ≡ true → spaced true (strip_leading s) ≡ true
unfolding strip_leading
spaced-strip_leading [] h = refl
spaced-strip_leading (c ∷ s) h = ground arith

slug_char-not-dash : (n : ℕ) → is_slug_char n ≡ true → is_dash n ≡ false
slug_char-not-dash n h = ground arith

strip_trailing-ne-nil :
    (c : Char) (s : String) → is_slug_char (code c) ≡ true → strip_trailing (c ∷ s) ≢ ""
unfolding strip_trailing
strip_trailing-ne-nil c [] h = rw (slug_char-not-dash (code c) h) (cc)
strip_trailing-ne-nil c (d ∷ s) h = cc

-- After a dash a spaced text goes on with a letter or digit.
slug_char_of_spaced :
    (k dash : Bool) (r₁ r₂ : Bool) → (if k then r₁ else dash && not true && r₂) ≡ true → k ≡ true
slug_char_of_spaced k dash r₁ r₂ h = ground arith

dash_of_spaced :
    (dash after rest : Bool)
    → (dash && not after && rest) ≡ true
    → (dash ≡ true) × (not after ≡ true) × (rest ≡ true)
dash_of_spaced dash after rest h = (ground arith, ground arith, ground arith)

joined-strip_trailing :
    (after : Bool) (s : String)
    → spaced after s ≡ true
    → (strip_trailing s ≡ "") ⊎ (joined after (strip_trailing s) ≡ true)
unfolding strip_trailing
joined-strip_trailing after [] h = inl refl
joined-strip_trailing after (c ∷ []) h = elim (Bool-cases (is_slug_char (code c))) [
  | inl k ↦ inr (rw (slug_char-not-dash (code c) k) (rw k))
  | inr other ↦ inl (rw ((dash_of_spaced (is_dash (code c)) after true (rw other at h)).0))
]
joined-strip_trailing after (c ∷ d ∷ s) h = elim (Bool-cases (is_slug_char (code c))) [
  | inl k ↦ elim (joined-strip_trailing false (d ∷ s) (rw k at h)) [
    | inl e ↦ inr (rw k (rw e))
    | inr j ↦ inr (rw k j)
  ]
  | inr other ↦
      let (dash, fits, goes_on) =
        dash_of_spaced (is_dash (code c)) after (spaced true (d ∷ s)) (rw other at h) in
      elim (joined-strip_trailing true (d ∷ s) goes_on) [
        | inl e ↦ absurd (
            strip_trailing-ne-nil d s
              (slug_char_of_spaced (is_slug_char (code d)) (is_dash (code d)) (spaced false s)
                (spaced true s) goes_on)
              e)
        | inr j ↦ inr (rw other (rw dash (rw fits j)))
      ]
]

is_slug_of_joined : (s : String) → (s ≡ "") ⊎ (joined true s ≡ true) → is_slug s ≡ true
is_slug_of_joined [] h = refl
is_slug_of_joined (c ∷ s) (inl e) = cc
is_slug_of_joined (c ∷ s) (inr j) = j

-- Whatever the company's name and the table of lower-case letters, the identifier that the page
-- fills in is empty or of the form that its field asks for, with no dash at an end and no two
-- dashes together.
pub is_slug-slug : (lower : String → String) (name : String) → is_slug (slug lower name) ≡ true
unfolding slug
is_slug-slug lower name =
    let stripped = strip_leading (dashes false (lower name)) in
    is_slug_of_joined (strip_trailing stripped) (
      joined-strip_trailing true stripped
        (spaced-strip_leading (dashes false (lower name)) (spaced-dashes false (lower name))))
