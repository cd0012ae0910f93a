-- ===== src/Text/Lines.antt =====
-- Texts of several lines: `split("\n")` and `join("\n")`.
use Prim.Native.Char.{Char, code}
use Prim.Native.String.{String, [], ◌∷◌}
use mathlib.Core.List.{List, [], ◌∷◌}
use text.Mathlib.TextLemmas.{nil-append, cons-append}
use the_eye.Base.{
  and_parts, Bool, true, false, not, ◌&&◌, ◌⧺◌, ◌≡◌, refl, arith, eqb, all, if◌then◌else◌,
}

-- A character in front of the first line.
abbrev begin_line : Char → List String → List String
begin_line c [] = (c ∷ []) ∷ []
begin_line c (l ∷ ls) = (c ∷ l) ∷ ls

unfoldable pub split_lines : String → List String
split_lines [] = [] ∷ []
split_lines (c ∷ s) =
    let rest = split_lines s in if eqb (code c) 10 then [] ∷ rest else begin_line c rest

unfoldable pub join_lines : List String → String
join_lines [] = []
join_lines (l ∷ []) = l
join_lines (l ∷ m ∷ ls) = l ⧺ "\n" ⧺ join_lines (m ∷ ls)

abbrev pub is_one_line : String → Bool
is_one_line [] = true
is_one_line (c ∷ s) = not (eqb (code c) 10) && is_one_line s

one_line_first : (c : Char) (s : String) → is_one_line (c ∷ s) ≡ true → eqb (code c) 10 ≡ false
one_line_first c s h = ground (arith, (and_parts (not (eqb (code c) 10)) (is_one_line s) h).0)

split_line : (s : String) → is_one_line s ≡ true → split_lines s ≡ s ∷ []
unfolding split_lines
split_line [] h = refl
split_line (c ∷ s) h =
    let rest = (and_parts (not (eqb (code c) 10)) (is_one_line s) h).1 in
    rw (one_line_first c s h) (rw (split_line s rest) refl)

split_lines-append :
    (s t : String) → is_one_line s ≡ true → split_lines (s ⧺ "\n" ⧺ t) ≡ s ∷ split_lines t
unfolding split_lines
split_lines-append [] t h = rw nil-append (rw cons-append (rw nil-append refl))
split_lines-append (c ∷ s) t h =
    let rest = (and_parts (not (eqb (code c) 10)) (is_one_line s) h).1 in
    rw cons-append (rw (one_line_first c s h) (rw (split_lines-append s t rest) refl))

pub split_lines-join_lines :
    (l : String) (ls : List String)
    → all is_one_line (l ∷ ls) ≡ true
    → split_lines (join_lines (l ∷ ls)) ≡ l ∷ ls
unfolding join_lines
split_lines-join_lines l [] h = split_line l (and_parts (is_one_line l) true h).0
split_lines-join_lines l (m ∷ ls) h =
    let (first, rest) = and_parts (is_one_line l) (all is_one_line (m ∷ ls)) h in
    rw (split_lines-append l (join_lines (m ∷ ls)) first)
      (rw (split_lines-join_lines m ls rest) refl)
