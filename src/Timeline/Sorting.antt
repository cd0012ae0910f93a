-- ===== src/Timeline/Sorting.antt =====
-- The sort of the timeline: ordered, the same events, and filtering commutes with it.
use the_eye.Base.{
  ℕ, ◌≤◌, Bool, true, List, [], ◌∷◌, ◌≡◌, refl, ◌∙◌, arith, leb, filter, eqb, all, all-filter,
  and_parts, Bool-cases, inl, inr, if◌then◌else◌, All,
}
use mathlib.Core.List.{Perm}
use mathlib.Core.List.Perm
use the_eye.Api.Events.{EventRead}
use the_eye.Timeline.{place, sort_events}

module _ (time_of : EventRead → ℕ) where
  abbrev pub NotBefore : EventRead → List EventRead → Type 0
  NotBefore e es = All (λ f. time_of e ≤ time_of f) es

  -- No event comes before an earlier one.
  abbrev pub IsChronological : List EventRead → Type 0
  IsChronological [] = Unit
  IsChronological (e ∷ es) = NotBefore e es × IsChronological es

  NotBefore-place :
      (x e : EventRead) (es : List EventRead)
      → time_of x ≤ time_of e
      → NotBefore x es
      → NotBefore x (place time_of e es)
  unfolding place
  NotBefore-place x e [] h k = (h, tt)
  NotBefore-place x e (f ∷ fs) h k = elim (Bool-cases (leb (time_of e) (time_of f))) [
    | inl c ↦ rw c (h, k)
    | inr c ↦ rw c (k.0, NotBefore-place x e fs h k.1)
  ]

  NotBefore-trans :
      (x y : EventRead) (es : List EventRead)
      → time_of x ≤ time_of y
      → NotBefore y es
      → NotBefore x es
  NotBefore-trans x y [] h k = tt
  NotBefore-trans x y (f ∷ fs) h k = (omega (arith, h, k.0), NotBefore-trans x y fs h k.1)

  place-IsChronological :
      (e : EventRead) (es : List EventRead)
      → IsChronological es
      → IsChronological (place time_of e es)
  unfolding place
  place-IsChronological e [] h = (tt, tt)
  place-IsChronological e (f ∷ fs) h = elim (Bool-cases (leb (time_of e) (time_of f))) [
    | inl c ↦ rw c (
        let first : time_of e ≤ time_of f = ground (arith, c) in
        ((first, NotBefore-trans e f fs first h.0), h))
    | inr c ↦ rw c (NotBefore-place f e fs (ground (arith, c)) h.0, place-IsChronological e fs h.1)
  ]

  pub sort_events-IsChronological : (es : List EventRead) → IsChronological (sort_events time_of es)
  unfolding sort_events
  sort_events-IsChronological [] = tt
  sort_events-IsChronological (e ∷ es) =
      place-IsChronological e (sort_events time_of es) (sort_events-IsChronological es)

  module _ (p : EventRead → Bool) where
    NotBefore-filter :
        (x : EventRead) (es : List EventRead) → NotBefore x es → NotBefore x (filter p es)
    NotBefore-filter x [] h = tt
    NotBefore-filter x (f ∷ fs) h = elim (Bool-cases (p f)) [
      | inl c ↦ rw c (h.0, NotBefore-filter x fs h.1)
      | inr c ↦ rw c (NotBefore-filter x fs h.1)
    ]

    -- In front of events that are not earlier an event stays first.
    place_first :
        (e : EventRead) (es : List EventRead) → NotBefore e es → place time_of e es ≡ e ∷ es
    unfolding place
    place_first e [] h = refl
    place_first e (f ∷ fs) h = ground (arith, h.0)

    filter-place :
        (e : EventRead) (es : List EventRead)
        → IsChronological es
        → filter p (place time_of e es)
          ≡ (if p e then place time_of e (filter p es) else filter p es)
    unfolding place
    filter-place e [] h = ground arith
    filter-place e (f ∷ fs) h = elim (Bool-cases (leb (time_of e) (time_of f))) [
      | inl c ↦ rw c (
          let first : time_of e ≤ time_of f = ground (arith, c) in
          let kept = NotBefore-filter e (f ∷ fs) (first, NotBefore-trans e f fs first h.0) in
          ground (arith, place_first e (filter p (f ∷ fs)) kept))
      | inr c ↦ rw c (ground (arith, c, filter-place e fs h.1))
    ]

    -- Sorting and leaving events out commute, so that events of one time keep their order.
    pub filter-sort_events :
        (es : List EventRead)
        → filter p (sort_events time_of es) ≡ sort_events time_of (filter p es)
    unfolding sort_events
    filter-sort_events [] = refl
    filter-sort_events (e ∷ es) =
        filter-place e (sort_events time_of es) (sort_events-IsChronological es)
        ∙ rw (filter-sort_events es) (elim (Bool-cases (p e)) [ inl c ↦ rw c | inr c ↦ rw c ])

  place-perm : (e : EventRead) (es : List EventRead) → Perm (place time_of e es) (e ∷ es)
  unfolding place
  place-perm e [] = Perm.refl (e ∷ [])
  place-perm e (f ∷ fs) = elim (Bool-cases (leb (time_of e) (time_of f))) [
    | inl c ↦ rw c (Perm.refl (e ∷ f ∷ fs))
    | inr c ↦ rw c (Perm.trans (Perm.cons' refl (place-perm e fs)) (Perm.swap e f fs))
  ]

  pub sort_events-perm : (es : List EventRead) → Perm (sort_events time_of es) es
  unfolding sort_events
  sort_events-perm [] = Perm.refl []
  sort_events-perm (e ∷ es) =
      Perm.trans (place-perm e (sort_events time_of es)) (Perm.cons' refl (sort_events-perm es))

  abbrev pub at_time : ℕ → EventRead → Bool
  at_time t e = eqb (time_of e) t

  place_same :
      (t : ℕ) (e : EventRead) (es : List EventRead)
      → at_time t e ≡ true
      → all (at_time t) es ≡ true
      → place time_of e es ≡ e ∷ es
  unfolding place
  place_same t e [] h k = refl
  place_same t e (f ∷ fs) h k = ground arith

  sort_events_same :
      (t : ℕ) (es : List EventRead) → all (at_time t) es ≡ true → sort_events time_of es ≡ es
  unfolding sort_events
  sort_events_same t [] h = refl
  sort_events_same t (e ∷ es) h =
      let (first, rest) = and_parts (at_time t e) (all (at_time t) es) h in
      rw (sort_events_same t es rest) (place_same t e es first rest)

  -- Events of one time keep their order.
  pub sort_events_stable :
      (t : ℕ) (es : List EventRead)
      → filter (at_time t) (sort_events time_of es) ≡ filter (at_time t) es
  sort_events_stable t es =
      filter-sort_events (at_time t) es
      ∙ sort_events_same t (filter (at_time t) es) (all-filter (at_time t) es)
