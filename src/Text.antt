-- ===== src/Text.antt =====
-- What the pages use of JavaScript's texts: the length in UTF-16 code units, and `trim`.
pub mod Words
pub mod Actions
pub mod Lines
pub mod Paths
use Prim.Native.Char.{Char, code}
use Prim.Native.String.{[], ◌∷◌}
use the_eye.Base.{
  refl, true, false, ◌≡◌, ap, arith, eq_iff, Bool-cases, inl, inr, ℕ, ◌+◌, Bool, ◌&&◌, ◌||◌, String,
  ◌==◌, ltb, leb, eqb, if◌then◌else◌,
}

-- A character beyond the basic plane is two code units.
abbrev pub text_length : String → ℕ
text_length [] = 0
text_length (c ∷ s) = (if ltb (code c) 65536 then 1 else 2) + text_length s

-- The white space and line terminators of ECMAScript.
abbrev is_space : ℕ → Bool
is_space n =
    leb 9 n && leb n 13
    || eqb n 32
    || eqb n 160
    || eqb n 5760
    || leb 8192 n && leb n 8202
    || eqb n 8232
    || eqb n 8233
    || eqb n 8239
    || eqb n 8287
    || eqb n 12288
    || eqb n 65279

trim_start : String → String
trim_start [] = []
trim_start (c ∷ s) = let rest = trim_start s in if is_space (code c) then rest else c ∷ s

trim_end : String → String
trim_end [] = []
trim_end (c ∷ s) = let rest = trim_end s in if is_space (code c) && rest == "" then [] else c ∷ rest

unfoldable pub trim : String → String
unfolding trim_start trim_end
trim s = trim_end (trim_start s)

abbrev is_nil : String → Bool
is_nil [] = true
is_nil (c ∷ s) = false

-- A text with a character is not empty.
pub cons_not_nil : (c : Char) (s : String) → ((c ∷ s) == "") ≡ false
cons_not_nil c s = elim (Bool-cases ((c ∷ s) == "")) [
  | inl e ↦ ground (arith, ap is_nil ((eq_iff (c ∷ s) "").0 e))
  | inr e ↦ e
]

-- startsWith and includes
abbrev pub starts_with : String → String → Bool
starts_with s [] = true
starts_with [] (d ∷ q) = false
starts_with (c ∷ s) (d ∷ q) = eqb (code c) (code d) && starts_with s q

abbrev pub text_includes : String → String → Bool
text_includes [] q = starts_with [] q
text_includes (c ∷ s) q = starts_with (c ∷ s) q || text_includes s q

pub text_includes_nil : (s : String) → text_includes s [] ≡ true
text_includes_nil [] = refl
text_includes_nil (c ∷ s) = refl
