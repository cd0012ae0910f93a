-- ===== src/Base/Keyed.antt =====
-- Lists of values that each have an id, as the pages keep them: replacing the value of an id, and
-- adding a value that is new. By its ids such a list is a dictionary.
use Prim.Native.String.{String}
use mathlib.Core.Path.{◌≡◌, refl, ◌∙◌}
use mathlib.Core.Logic.{inl, inr}
use mathlib.Core.Bool.{Bool, true, false, not, ◌&&◌}
use mathlib.Core.Option.{Option, none, some}
use mathlib.Core.List.{List, [], ◌∷◌, map}
use native.Mathlib.Omega.{arith}
use text.Mathlib.Text.{◌==◌}
use text.Mathlib.TextEquality.{eq_iff}
use the_eye.Base.Tests.{if◌then◌else◌, Bool-cases, is_some}
use the_eye.Base.Lists.{filter, any}

module _ {ℓ} {A : Type ℓ} (id_of : A → String) where
  -- xs.find((x) => x.id === id)
  abbrev pub find_id : String → List A → Option A
  find_id id [] = none
  find_id id (x ∷ xs) = if id_of x == id then some x else find_id id xs

  -- (x) => x.id === new.id ? new : x
  abbrev pub swap_in : A → A → A
  swap_in new x = if id_of x == id_of new then new else x

  abbrev pub replace_id : A → List A → List A
  replace_id new xs = map (swap_in new) xs

  -- xs.filter((x) => x.id !== id)
  abbrev pub remove_id : String → List A → List A
  remove_id id xs = filter (λ x. not (id_of x == id)) xs

  unfoldable pub upsert : A → List A → List A
  upsert new xs = if is_some (find_id (id_of new) xs) then replace_id new xs else new ∷ xs

  abbrev pub has_id : String → A → Bool
  has_id id x = id_of x == id

  abbrev pub distinct_ids : List A → Bool
  distinct_ids [] = true
  distinct_ids (x ∷ xs) = not (any (has_id (id_of x)) xs) && distinct_ids xs

  pub ids-replace_id : (new : A) (xs : List A) → map id_of (replace_id new xs) ≡ map id_of xs
  ids-replace_id new [] = refl
  ids-replace_id new (x ∷ xs) = ground (arith, eq_iff (id_of x) (id_of new), ids-replace_id new xs)

  any-replace_id :
      (id : String) (new : A) (xs : List A)
      → any (has_id id) (replace_id new xs) ≡ any (has_id id) xs
  any-replace_id id new [] = refl
  any-replace_id id new (x ∷ xs) =
      ground (arith, eq_iff (id_of x) (id_of new), any-replace_id id new xs)

  pub distinct_ids-replace_id :
      (new : A) (xs : List A) → distinct_ids (replace_id new xs) ≡ distinct_ids xs
  distinct_ids-replace_id new [] = refl
  distinct_ids-replace_id new (x ∷ xs) = ground (
    arith,
    eq_iff (id_of x) (id_of new),
    any-replace_id (id_of x) new xs,
    distinct_ids-replace_id new xs,
  )

  find_id-replace_id :
      (id : String) (new : A) (xs : List A)
      → find_id id (replace_id new xs) ≡ (
          if id_of new == id
          then (if is_some (find_id id xs) then some new else none)
          else find_id id xs)
  find_id-replace_id id new [] = ground arith
  find_id-replace_id id new (x ∷ xs) = ground (
    arith,
    eq_iff (id_of x) (id_of new),
    eq_iff (id_of x) id,
    eq_iff (id_of new) id,
    find_id-replace_id id new xs,
  )

  none_of_find :
      (id : String) (xs : List A) → is_some (find_id id xs) ≡ false → any (has_id id) xs ≡ false
  none_of_find id [] h = refl
  none_of_find id (x ∷ xs) h = ground (arith, none_of_find id xs)

  pub distinct_ids-upsert :
      (new : A) (xs : List A) → distinct_ids xs ≡ true → distinct_ids (upsert new xs) ≡ true
  unfolding upsert
  distinct_ids-upsert new xs h = elim (Bool-cases (is_some (find_id (id_of new) xs))) [
    | inl e ↦ rw e (distinct_ids-replace_id new xs ∙ h)
    | inr e ↦ rw e (ground (arith, none_of_find (id_of new) xs e, h))
  ]

  pub find_id-upsert :
      (id : String) (new : A) (xs : List A)
      → find_id id (upsert new xs) ≡ (if id_of new == id then some new else find_id id xs)
  unfolding upsert
  find_id-upsert id new xs = elim (Bool-cases (is_some (find_id (id_of new) xs))) [
    | inl e ↦ rw e (ground (arith, e, find_id-replace_id id new xs, eq_iff (id_of new) id))
    | inr e ↦ rw e
  ]

  pub find_id-remove_id :
      (id j : String) (xs : List A)
      → find_id j (remove_id id xs) ≡ (if id == j then none else find_id j xs)
  find_id-remove_id id j [] = ground arith
  find_id-remove_id id j (x ∷ xs) =
      ground
        (arith, eq_iff (id_of x) id, eq_iff (id_of x) j, eq_iff id j, find_id-remove_id id j xs)
