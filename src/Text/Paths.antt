-- ===== src/Text/Paths.antt =====
-- The links of a sidebar (frontend/src/components/Sidebar.tsx and
-- staff-portal/src/components/Sidebar.tsx): a link is active on its own path and on the paths below.
use Prim.Native.Char.{code}
use Prim.Native.String.{[], ◌∷◌}
use mathlib.Core.List.{List, [], ◌∷◌}
use text.Mathlib.TextLemmas.{cons-append}
use the_eye.Base.{
  ◌≤◌, Bool, true, false, not, ◌&&◌, ◌||◌, String, ◌⧺◌, ◌==◌, ◌≡◌, refl, arith, eq_iff, eqb,
  and_parts, Bool-cases, inl, inr, all, filter, length, map, subst,
}
use the_eye.Text.{starts_with}

-- pathname === href || pathname.startsWith(href + "/")
abbrev pub is_at : String → String → Bool
is_at pathname href = pathname == href || starts_with pathname (href ⧺ "/")

-- The same, character by character.
abbrev pub covers : String → String → Bool
covers [] [] = true
covers [] (d ∷ p) = eqb (code d) b'/'
covers (c ∷ h) [] = false
covers (c ∷ h) (d ∷ p) = eqb (code d) (code c) && covers h p

covers_itself : (p : String) → covers p p ≡ true
covers_itself [] = refl
covers_itself (c ∷ p) = ground (arith, covers_itself p)

covers_below : (h p : String) → starts_with p (h ⧺ "/") ≡ true → covers h p ≡ true
covers_below [] [] b = refl
covers_below [] (d ∷ p) b = (and_parts (eqb (code d) b'/') (starts_with p "") b).0
covers_below (c ∷ h) [] b = ground (arith, rw cons-append at b)
covers_below (c ∷ h) (d ∷ p) b =
    let (same, rest) =
      and_parts (eqb (code d) (code c)) (starts_with p (h ⧺ "/")) (rw cons-append at b) in
    rw (same, covers_below h p rest) refl

covers_of_at : (p h : String) → is_at p h ≡ true → covers h p ≡ true
covers_of_at p h a = elim (Bool-cases (p == h)) [
  | inl e ↦ subst (λ k. covers k p ≡ true) ((eq_iff p h).0 e) (covers_itself p)
  | inr e ↦ covers_below h p (rw e at a)
]

-- The query of an address begins with `?`.
abbrev pub has_query : String → Bool
has_query [] = false
has_query (c ∷ s) = eqb (code c) b'?' || has_query s

has_query_of_covers : (h p : String) → covers h p ≡ true → has_query h ≡ true → has_query p ≡ true
has_query_of_covers [] p a q = ground (arith, q)
has_query_of_covers (c ∷ h) [] a q = ground (arith, a)
has_query_of_covers (c ∷ h) (d ∷ p) a q =
    let (same, rest) = and_parts (eqb (code d) (code c)) (covers h p) a in
    elim (Bool-cases (eqb (code c) b'?')) [
      | inl e ↦ ground (arith, same, e)
      | inr e ↦ ground (arith, has_query_of_covers h p rest (ground (arith, e, q)))
    ]

-- A link with a query is active on no path.
pub is_at_none : (p h : String) → has_query p ≡ false → has_query h ≡ true → is_at p h ≡ false
is_at_none p h n q = elim (Bool-cases (is_at p h)) [
  | inl e ↦ ground (arith, n, has_query_of_covers h p (covers_of_at p h e) q)
  | inr e ↦ e
]

-- Two links that cover one path cover one another.
covers_both :
    (h k p : String) → covers h p ≡ true → covers k p ≡ true → (covers h k || covers k h) ≡ true
covers_both [] [] p a b = refl
covers_both [] (c ∷ k) [] a b = ground (arith, b)
covers_both [] (c ∷ k) (d ∷ p) a b = ground (arith, a, b)
covers_both (c ∷ h) [] [] a b = ground (arith, a)
covers_both (c ∷ h) [] (d ∷ p) a b = ground (arith, a, b)
covers_both (c ∷ h) (e ∷ k) [] a b = ground (arith, a)
covers_both (c ∷ h) (e ∷ k) (d ∷ p) a b =
    let (same, more) = and_parts (eqb (code d) (code c)) (covers h p) a in
    let (like, rest) = and_parts (eqb (code d) (code e)) (covers k p) b in
    ground (arith, same, like, covers_both h k p more rest)

abbrev apart : String → String → Bool
apart h k = not (covers h k || covers k h)

-- Links none of which is another or below another.
abbrev pub is_spread : List String → Bool
is_spread [] = true
is_spread (h ∷ hs) = all (apart h) hs && is_spread hs

module _ {A : Type 0} (href : A → String) (p : String) where
  abbrev active : A → Bool
  active a = is_at p (href a)

  none_active :
      (a : A) (items : List A)
      → active a ≡ true
      → all (apart (href a)) (map href items) ≡ true
      → filter active items ≡ []
  none_active a [] h s = refl
  none_active a (b ∷ items) h s =
      let (away, rest) =
        and_parts (apart (href a) (href b)) (all (apart (href a)) (map href items)) s in
      elim (Bool-cases (active b)) [
        | inl e ↦ ground (
          arith,
          away,
          covers_both (href a) (href b) p (covers_of_at p (href a) h) (covers_of_at p (href b) e),
        )
        | inr e ↦ rw e (none_active a items h rest)
      ]

  pub length-filter-is_at :
      (items : List A)
      → is_spread (map href items) ≡ true
      → length (filter (λ a. is_at p (href a)) items) ≤ 1
  length-filter-is_at [] s = omega arith
  length-filter-is_at (a ∷ items) s =
      let (away, rest) =
        and_parts (all (apart (href a)) (map href items)) (is_spread (map href items)) s in
      elim (Bool-cases (active a)) [
        | inl e ↦ rw (e, none_active a items e away) (omega arith)
        | inr e ↦ rw e (length-filter-is_at items rest)
      ]
