-- ===== src/Grouping/Laws.antt =====
-- Each of the two loops keeps under each day its events in their order.
use the_eye.Base.{
  none, Bool, true, false, Option, some, List, [], ◌∷◌, ◌++◌, String, ◌==◌, ◌≡◌, refl, ap, ◌∙◌,
  or_else, is_some, filter, eq_iff, eq_refl, append_assoc, Bool-cases, inl, inr, if◌then◌else◌,
}
use the_eye.Base.Dict.{lookup, insert, lookup-insert}
use the_eye.Api.Events.{EventRead}
use the_eye.Grouping.{Groups, add_event, push_event, with_day, group_timeline, group_trail}

skip_day :
    (day d : String) (e : EventRead) (bucket : List EventRead)
    → (d == day) ≡ false
    → (b : Bool) (g h : Groups)
    → push_event day e (if b then (d, bucket) ∷ g else (d, bucket) ∷ h)
      ≡ (d, bucket) ∷ push_event day e (if b then g else h)
unfolding push_event
skip_day day d e bucket other true g h = rw other
skip_day day d e bucket other false g h = rw other

lookup_other :
    (day d : String) (bucket : List EventRead) (g : Groups)
    → (d == day) ≡ false
    → lookup day ((d, bucket) ∷ g) ≡ lookup day g
unfolding lookup
lookup_other day d bucket g other = rw other

insert_other :
    (day d : String) (bucket new : List EventRead) (g : Groups)
    → (d == day) ≡ false
    → insert day new ((d, bucket) ∷ g) ≡ (d, bucket) ∷ insert day new g
unfolding insert
insert_other day d bucket new g other = rw other

push_event_nil :
    (day : String) (e : EventRead) → push_event day e (with_day day []) ≡ add_event day e []
unfolding push_event with_day add_event lookup insert
push_event_nil day e = rw (eq_refl day)

push_event_same :
    (day d : String) (e : EventRead) (bucket : List EventRead) (g : Groups)
    → (d == day) ≡ true
    → push_event day e (with_day day ((d, bucket) ∷ g)) ≡ add_event day e ((d, bucket) ∷ g)
unfolding push_event with_day add_event lookup insert
push_event_same day d e bucket g same =
    rw same (rw same (ap (λ k. (k, bucket ++ e ∷ []) ∷ g) ((eq_iff d day).0 same)))

push_event-with_day :
    (day : String) (e : EventRead) (g : Groups)
    → push_event day e (with_day day g) ≡ add_event day e g
unfolding with_day add_event
push_event-with_day day e [] = push_event_nil day e
push_event-with_day day e ((d, bucket) ∷ g) = elim (Bool-cases (d == day)) [
  | inl same ↦ push_event_same day d e bucket g same
  | inr other ↦ rw (lookup_other day d bucket g other) (
      rw (insert_other day d bucket [] g other) (
        rw (insert_other day d bucket (or_else (lookup day g) [] ++ e ∷ []) g other) (
          skip_day day d e bucket other (is_some (lookup day g)) g (insert day [] g)
          ∙ ap (λ x. (d, bucket) ∷ x) (push_event-with_day day e g))))
]

-- By one wording of the days the two loops would build the same groups.
group_trail-group_timeline :
    (day_of : EventRead → String) (g : Groups) (es : List EventRead)
    → group_trail day_of g es ≡ group_timeline day_of g es
unfolding group_trail group_timeline
group_trail-group_timeline day_of g [] = refl
group_trail-group_timeline day_of g (e ∷ es) =
    rw (push_event-with_day (day_of e) e g)
      (group_trail-group_timeline day_of (add_event (day_of e) e g) es)

-- A bucket with further events: a day without events has none.
abbrev pub grown : Option (List EventRead) → List EventRead → Option (List EventRead)
grown bucket [] = bucket
grown bucket (e ∷ es) = some (or_else bucket [] ++ e ∷ es)

-- A list, where it is not empty.
abbrev pub non_empty : List EventRead → Option (List EventRead)
non_empty [] = none
non_empty (e ∷ es) = some (e ∷ es)

grown-none : (es : List EventRead) → grown none es ≡ (non_empty es)
grown-none [] = refl
grown-none (e ∷ es) = refl

grown-grown :
    (bucket : Option (List EventRead)) (e : EventRead) (es : List EventRead)
    → grown (some (or_else bucket [] ++ e ∷ [])) es ≡ grown bucket (e ∷ es)
grown-grown bucket e [] = refl
grown-grown bucket e (f ∷ es) = ap some (append_assoc (or_else bucket []) (e ∷ []) (f ∷ es))

abbrev pub on_day : (EventRead → String) → String → EventRead → Bool
on_day day_of d e = day_of e == d

lookup-add_event :
    (d day : String) (e : EventRead) (g : Groups)
    → lookup d (add_event day e g)
      ≡ (if day == d then some (or_else (lookup d g) [] ++ e ∷ []) else lookup d g)
unfolding add_event
lookup-add_event d day e g = elim (Bool-cases (day == d)) [
  | inl same ↦
      lookup-insert day d (or_else (lookup day g) [] ++ e ∷ []) g
      ∙ rw same (ap (λ k. some (or_else (lookup k g) [] ++ e ∷ [])) ((eq_iff day d).0 same))
  | inr other ↦ lookup-insert day d (or_else (lookup day g) [] ++ e ∷ []) g ∙ rw other
]

-- Under each day the groups hold the events that were there followed by exactly the events of
-- that day, in the order in which they came; a day that had no group and gets no event has none.
pub lookup-group_timeline :
    (day_of : EventRead → String) (d : String) (g : Groups) (es : List EventRead)
    → lookup d (group_timeline day_of g es) ≡ grown (lookup d g) (filter (on_day day_of d) es)
unfolding group_timeline
lookup-group_timeline day_of d g [] = refl
lookup-group_timeline day_of d g (e ∷ es) = elim (Bool-cases (day_of e == d)) [
  | inl same ↦
      lookup-group_timeline day_of d (add_event (day_of e) e g) es
      ∙ rw (lookup-add_event d (day_of e) e g)
          (rw same (grown-grown (lookup d g) e (filter (on_day day_of d) es)))
  | inr other ↦
      lookup-group_timeline day_of d (add_event (day_of e) e g) es
      ∙ rw (lookup-add_event d (day_of e) e g) (rw other)
]

-- Whatever the wording of the days, under each day the audit trail shows exactly the events of that
-- day, in the order in which they came, and it shows no day without events.
pub lookup-group_trail :
    (fmt_date : EventRead → String) (d : String) (es : List EventRead)
    → lookup d (group_trail fmt_date [] es)
      ≡ (let bucket = filter (λ e. fmt_date e == d) es in non_empty bucket)
unfolding lookup
lookup-group_trail fmt_date d es =
    rw (group_trail-group_timeline fmt_date [] es)
      (lookup-group_timeline fmt_date d [] es ∙ grown-none (filter (on_day fmt_date d) es))
