-- ===== src/Settings/Strength.antt =====
-- The strength of a new password (frontend/src/app/settings/page.tsx, pwStrength).
use Prim.Native.Char.{code}
use Prim.Native.String.{[], ◌∷◌}
use mathlib.Core.List.{[], ◌∷◌}
use text.Mathlib.TextLemmas.{nil-append, cons-append}
use the_eye.Base.{
  ℕ, zero, suc, ◌+◌, ◌≤◌, Bool, true, false, not, ◌&&◌, ◌||◌, Option, none, some, is_some, List,
  String, ◌⧺◌, ◌≡◌, refl, arith, leb, if◌then◌else◌,
}
use the_eye.Text.{text_length}

-- Whether a character of the text passes the test: a search by a class of characters.
abbrev pub any_char : (ℕ → Bool) → String → Bool
any_char p [] = false
any_char p (c ∷ s) = p (code c) || any_char p s

abbrev pub is_upper : ℕ → Bool
is_upper n = leb b'A' n && leb n b'Z'

abbrev pub is_digit : ℕ → Bool
is_digit n = leb b'0' n && leb n b'9'

-- [^A-Za-z0-9]
abbrev pub is_special : ℕ → Bool
is_special n = not (is_upper n || leb b'a' n && leb n b'z' || is_digit n)

abbrev point : Bool → ℕ
point b = if b then 1 else 0

unfoldable pub score : String → ℕ
score pw =
    point (leb 12 (text_length pw))
    + point (leb 16 (text_length pw))
    + point (any_char is_upper pw)
    + point (any_char is_digit pw)
    + point (any_char is_special pw)

-- The labels with their colours.
abbrev pub levels : List (String × String)
levels =
    ("Too short", "bg-[var(--border)]")
    ∷ ("Weak", "bg-[var(--danger)]")
    ∷ ("Fair", "bg-[var(--warn)]")
    ∷ ("Good", "bg-[var(--accent)]")
    ∷ ("Strong", "bg-[var(--safe)]")
    ∷ ("Very Strong", "bg-[var(--safe)]")
    ∷ []

-- An index past the end gives `undefined`.
abbrev pub get_elem? {ℓ} : {A : Type ℓ} → List A → ℕ → Option A
get_elem? [] n = none
get_elem? (x ∷ xs) zero = some x
get_elem? (x ∷ xs) (suc n) = get_elem? xs n

abbrev pub min : ℕ → ℕ → ℕ
min m n = if leb m n then m else n

unfoldable pub level : String → Option (String × String)
unfolding score
level pw = get_elem? levels (min (score pw) 5)

any_char-append : (p : ℕ → Bool) (s t : String) → any_char p s ≡ true → any_char p (s ⧺ t) ≡ true
any_char-append p [] t h = ground arith
any_char-append p (c ∷ s) t h = rw cons-append (ground (arith, any_char-append p s t))

text_length-append : (s t : String) → text_length (s ⧺ t) ≡ text_length s + text_length t
text_length-append [] t = rw nil-append (omega arith)
text_length-append (c ∷ s) t = rw cons-append (ground (arith, text_length-append s t))

level_of_le : (n : ℕ) → n ≤ 5 → is_some (get_elem? levels n) ≡ true
level_of_le zero h = refl
level_of_le (suc zero) h = refl
level_of_le (suc (suc zero)) h = refl
level_of_le (suc (suc (suc zero))) h = refl
level_of_le (suc (suc (suc (suc zero)))) h = refl
level_of_le (suc (suc (suc (suc (suc zero))))) h = refl
level_of_le (suc (suc (suc (suc (suc (suc n)))))) h = ground arith

score_le : (pw : String) → score pw ≤ 5
unfolding score
score_le pw = ground arith

point_mono : (b c : Bool) → (b ≡ true → c ≡ true) → point b ≤ point c
point_mono b c h = ground (arith, h)

long_enough :
    (n : ℕ) (s t : String) → leb n (text_length s) ≡ true → leb n (text_length (s ⧺ t)) ≡ true
long_enough n s t h = ground (arith, text_length-append s t)

-- The score of a password is at most 5, so that it always has a label and a colour, and adding
-- characters at the end never lowers it.
score_lem : (s t : String) → (score s ≤ 5) × (is_some (level s) ≡ true) × (score s ≤ score (s ⧺ t))
unfolding score level
score_lem s t = (
  score_le s,
  level_of_le (min (score s) 5) (ground (arith, score_le s)),
  omega (
    arith,
    point_mono (leb 12 (text_length s)) (leb 12 (text_length (s ⧺ t))) (long_enough 12 s t),
    point_mono (leb 16 (text_length s)) (leb 16 (text_length (s ⧺ t))) (long_enough 16 s t),
    point_mono (any_char is_upper s) (any_char is_upper (s ⧺ t)) (any_char-append is_upper s t),
    point_mono (any_char is_digit s) (any_char is_digit (s ⧺ t)) (any_char-append is_digit s t),
    point_mono (any_char is_special s) (any_char is_special (s ⧺ t))
        (any_char-append is_special s t),
  ),
)
