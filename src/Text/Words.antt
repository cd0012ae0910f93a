-- ===== src/Text/Words.antt =====
-- How both portals word an identifier: underscores become spaces and words get a capital
-- (frontend/src/app: `fmtLabel` of analytics/page.tsx, `fmtRole` of settings/page.tsx and
-- `fmtEvType` of intrusion-detection/page.tsx).
pub mod Laws
use the_eye.Text.{starts_with}
use Prim.Native.Char.{Char, code, char, IsScalar}
use Prim.Native.Nat.{compare, Ordering}
use Prim.Native.String.{[], ◌∷◌}
use the_eye.Base.{
  ℕ, ◌-◌, ◌≡◌, ◌<◌, arith, refl, Bool, true, false, not, ltb, ◌&&◌, ◌||◌, String, leb, eqb,
  if◌then◌else◌, Bool-cases, inl, inr,
}

pub compare_small : (n : ℕ) → n < 55296 → compare n 55296 ≡ Ordering.lt
compare_small n h = ground (arith, h)

pub is_scalar : (n : ℕ) → n < 55296 → IsScalar n
is_scalar n h = rw (compare_small n h) tt

abbrev pub is_lower : ℕ → Bool
is_lower n = leb b'a' n && leb n b'z'

pub less_small : (c : Char) → is_lower (code c) ≡ true → code c - 32 < 55296
less_small c h = ground (arith, h)

abbrev pub capital_if : (c : Char) (b : Bool) → is_lower (code c) ≡ b → Char
capital_if c true h = char (code c - 32) (is_scalar (code c - 32) (less_small c h))
capital_if c false h = c

-- toUpperCase on [A-Za-z0-9_]
unfoldable pub capital : Char → Char
capital c = capital_if c (is_lower (code c)) refl

-- \w
abbrev pub is_word : ℕ → Bool
is_word n =
    leb b'a' n && leb n b'z' || leb b'A' n && leb n b'Z' || leb b'0' n && leb n b'9' || eqb n b'_'

-- replace(/_/g, " ")
unfoldable pub spaced : String → String
spaced [] = []
spaced (c ∷ s) = if eqb (code c) b'_' then " " ∷ spaced s else c ∷ spaced s

-- replace(/\b\w/g, c => c.toUpperCase()): the flag says that the character before is of a word
unfoldable pub capitals : Bool → String → String
unfolding capital
capitals inside [] = []
capitals inside (c ∷ s) =
    let rest = capitals (is_word (code c)) s in
    if is_word (code c) && not inside then capital c ∷ rest else c ∷ rest

unfoldable pub fmt_label : String → String
unfolding spaced capitals
fmt_label s = capitals false (spaced s)

-- replace(q, ""): the first occurrence of a text that is not empty
abbrev dropped : String → String → String
dropped s [] = s
dropped [] (d ∷ q) = []
dropped (c ∷ s) (d ∷ q) = dropped s q

unfoldable pub without : String → String → String
without [] q = []
without (c ∷ s) q =
    let rest = without s q in if starts_with (c ∷ s) q then dropped (c ∷ s) q else c ∷ rest

unfoldable pub fmt_ev_type : String → String
unfolding without fmt_label
fmt_ev_type t = fmt_label (without (without t "auth.") "intrusion.")
