-- ===== src/Text/Words/Laws.antt =====
-- The wording of an identifier has no underscore and no word that begins with a small letter, keeps
-- its length, and is its own wording.
use Prim.Native.Char.{Char, code}
use Prim.Native.String.{[], ◌∷◌}
use the_eye.Base.{
  ℕ, ◌-◌, ◌≡◌, ◌∙◌, ap, arith, refl, Bool, true, false, not, ◌&&◌, String, ltb, eqb, if◌then◌else◌,
  Bool-cases, inl, inr,
}
use the_eye.Text.{text_length}
use the_eye.Text.Words.{capital, capital_if, is_lower, is_word, spaced, capitals, fmt_label}

-- No underscore, and no small letter where a word begins.
abbrev pub worded : Bool → String → Bool
worded inside [] = true
worded inside (c ∷ s) =
    not (eqb (code c) b'_') && not (is_lower (code c) && not inside) && worded (is_word (code c)) s

code-capital_if :
    (c : Char) (b : Bool) (h : is_lower (code c) ≡ b)
    → code (capital_if c b h) ≡ (if b then code c - 32 else code c)
code-capital_if c true h = refl
code-capital_if c false h = refl

code-capital : (c : Char) → code (capital c) ≡ (if is_lower (code c) then code c - 32 else code c)
unfolding capital
code-capital c = code-capital_if c (is_lower (code c)) refl

capital_if_other :
    (c : Char) (b : Bool) (h : is_lower (code c) ≡ b) → b ≡ false → capital_if c b h ≡ c
capital_if_other c true h e = ground (arith, e)
capital_if_other c false h e = refl

capital_other : (c : Char) → is_lower (code c) ≡ false → capital c ≡ c
unfolding capital
capital_other c e = capital_if_other c (is_lower (code c)) refl e

-- What `capitals` makes of one character.
abbrev begun : Bool → Char → Char
begun inside c = if is_word (code c) && not inside then capital c else c

-- The same on its number.
abbrev raised : Bool → ℕ → ℕ
raised inside n = if is_word n && not inside then (if is_lower n then n - 32 else n) else n

code-begun : (inside : Bool) (c : Char) → code (begun inside c) ≡ raised inside (code c)
code-begun inside c = elim (Bool-cases (is_word (code c) && not inside)) [
  | inl e ↦ rw e (code-capital c)
  | inr e ↦ rw e refl
]

raised_is_no_underscore :
    (inside : Bool) (n : ℕ) → eqb n b'_' ≡ false → eqb (raised inside n) b'_' ≡ false
raised_is_no_underscore true n h = ground (arith, h)
raised_is_no_underscore false n h = ground (arith, h)

raised_is_not_lower : (inside : Bool) (n : ℕ) → (is_lower (raised inside n) && not inside) ≡ false
raised_is_not_lower true n = ground arith
raised_is_not_lower false n = ground arith

is_word-raised : (inside : Bool) (n : ℕ) → is_word (raised inside n) ≡ is_word n
is_word-raised true n = ground arith
is_word-raised false n = ground arith

width-raised : (inside : Bool) (n : ℕ) → ltb (raised inside n) 65536 ≡ ltb n 65536
width-raised true n = ground arith
width-raised false n = ground arith

abbrev no_underscore : String → Bool
no_underscore [] = true
no_underscore (c ∷ s) = not (eqb (code c) b'_') && no_underscore s

no_underscore_of_spaced : (s : String) → no_underscore (spaced s) ≡ true
unfolding spaced
no_underscore_of_spaced [] = refl
no_underscore_of_spaced (c ∷ s) = elim (Bool-cases (eqb (code c) b'_')) [
  | inl e ↦ rw e (no_underscore_of_spaced s)
  | inr e ↦ rw e (rw e (no_underscore_of_spaced s))
]

capitals_step :
    (inside : Bool) (c : Char) (s : String)
    → capitals inside (c ∷ s) ≡ (begun inside c ∷ capitals (is_word (code c)) s)
unfolding capitals
capitals_step inside c s = elim (Bool-cases (is_word (code c) && not inside)) [
  | inl e ↦ rw e refl
  | inr e ↦ rw e refl
]

neither_and : (a b c : Bool) → a ≡ false → b ≡ false → c ≡ true → (not a && not b && c) ≡ true
neither_and a b c h k w = ground (arith, h, k, w)

worded_cons :
    (inside : Bool) (c : Char) (s : String)
    → eqb (code c) b'_' ≡ false
    → (is_lower (code c) && not inside) ≡ false
    → worded (is_word (code c)) s ≡ true
    → worded inside (c ∷ s) ≡ true
worded_cons inside c s h k w = neither_and _ _ _ h k w

worded-capitals :
    (inside : Bool) (s : String) → no_underscore s ≡ true → worded inside (capitals inside s) ≡ true
unfolding capitals
worded-capitals inside [] h = refl
worded-capitals inside (c ∷ s) h = rw (capitals_step inside c s) (
    worded_cons inside (begun inside c) (capitals (is_word (code c)) s)
      (rw (code-begun inside c) (raised_is_no_underscore inside (code c) (ground (arith, h))))
      (rw (code-begun inside c) (raised_is_not_lower inside (code c)))
      (rw (code-begun inside c, is_word-raised inside (code c))
        (worded-capitals (is_word (code c)) s (ground (arith, h)))))

begun_of_worded :
    (inside : Bool) (c : Char) → (is_lower (code c) && not inside) ≡ false → begun inside c ≡ c
begun_of_worded true c h = ground arith
begun_of_worded false c h = elim (Bool-cases (is_word (code c))) [
  | inl e ↦ rw e (capital_other c (ground (arith, h)))
  | inr e ↦ rw e refl
]

capitals_of_worded : (inside : Bool) (s : String) → worded inside s ≡ true → capitals inside s ≡ s
unfolding capitals
capitals_of_worded inside [] h = refl
capitals_of_worded inside (c ∷ s) h =
    rw (capitals_step inside c s, begun_of_worded inside c (ground (arith, h)))
      (ap (λ r. c ∷ r) (capitals_of_worded (is_word (code c)) s (ground (arith, h))))

spaced_of_worded : (inside : Bool) (s : String) → worded inside s ≡ true → spaced s ≡ s
unfolding spaced
spaced_of_worded inside [] h = refl
spaced_of_worded inside (c ∷ s) h = elim (Bool-cases (eqb (code c) b'_')) [
  | inl e ↦ ground (arith, e, h)
  | inr e ↦ rw e (ap (λ r. c ∷ r) (spaced_of_worded (is_word (code c)) s (ground (arith, h, e))))
]

text_length-capitals :
    (inside : Bool) (s : String) → text_length (capitals inside s) ≡ text_length s
unfolding capitals
text_length-capitals inside [] = refl
text_length-capitals inside (c ∷ s) =
    rw
      (
        capitals_step inside c s,
        code-begun inside c,
        width-raised inside (code c),
        text_length-capitals (is_word (code c)) s,
      )
      refl

text_length-spaced : (s : String) → text_length (spaced s) ≡ text_length s
unfolding spaced
text_length-spaced [] = refl
text_length-spaced (c ∷ s) = elim (Bool-cases (eqb (code c) b'_')) [
  | inl e ↦ rw (e, text_length-spaced s) (ground (arith, e))
  | inr e ↦ rw (e, text_length-spaced s) refl
]

-- The label of every identifier has no underscore and no word that begins with a small letter, is
-- as long as the identifier, and is its own label.
pub fmt_label-fmt_label :
    (s : String)
    → (worded false (fmt_label s) ≡ true)
      × (text_length (fmt_label s) ≡ text_length s)
      × (fmt_label (fmt_label s) ≡ fmt_label s)
unfolding fmt_label
fmt_label-fmt_label s =
    let w = worded-capitals false (spaced s) (no_underscore_of_spaced s) in
    (
      w,
      text_length-capitals false (spaced s) ∙ text_length-spaced s,
      ap (capitals false) (spaced_of_worded false (capitals false (spaced s)) w)
          ∙ capitals_of_worded false (capitals false (spaced s)) w,
    )
