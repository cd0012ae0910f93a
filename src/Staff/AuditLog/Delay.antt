-- ===== src/Staff/AuditLog/Delay.antt =====
-- The filters of the staff's log and the delay before a load
-- (staff-portal/src/app/audit/page.tsx): every change of a filter cancels the timer that waits and
-- sets another, a timer that fires and the refresh button start a load with filters, and the answers
-- to the loads come in any order. Of an answer only its filters are kept here, or that it failed.
use the_eye.Base.{
  subst, and_parts, ℕ, zero, suc, Bool, true, false, Option, none, some, List, [], ◌∷◌, ◌++◌,
  String, ◌≡◌, ◌⊎◌, inl, inr, refl, arith, ap, sym, eqb, all,
}

-- The severity, the action and the actor.
abbrev pub Filters : Type 0
Filters = String × String × String

pub record DelayedPage : Type 0 where
  pub filters : Filters
  pub timer : Option Filters
  -- the loads under way, the oldest first
  pub under_way : List Filters
  pub shown : Option Filters
  pub failed : Bool

-- The answer says which of the loads under way it belongs to, and whether it succeeded.
pub data Move : Type 0 where
  set_filters : Filters → Move
  fire refresh : Move
  answer : ℕ → Bool → Move

abbrev pub fired : Option Filters → DelayedPage → DelayedPage
fired none p = p
fired (some f) p = record p { timer = none; under_way = p.under_way ++ f ∷ [] }

-- The load at a place, and the others.
abbrev pub pick : ℕ → List Filters → Option (Filters × List Filters)
pick n [] = none
pick zero (f ∷ fs) = some (f, fs)
pick (suc n) (f ∷ fs) = elim (pick n fs) [ none ↦ none | some (g, gs) ↦ some (g, f ∷ gs) ]

abbrev pub answered : Option (Filters × List Filters) → Bool → DelayedPage → DelayedPage
answered none ok p = p
answered (some (f, fs)) true p = record p { under_way = fs; shown = some f; failed = false }
answered (some (f, fs)) false p = record p { under_way = fs; failed = true }

unfoldable pub move : Move → DelayedPage → DelayedPage
move (set_filters f) p = record p { filters = f; timer = some f }
move fire p = fired p.timer p
move refresh p = record p { under_way = p.under_way ++ p.filters ∷ [] }
move (answer n ok) p = answered (pick n p.under_way) ok p

abbrev pub moves : List Move → DelayedPage → DelayedPage
moves [] p = p
moves (m ∷ ms) p = moves ms (move m p)

-- The page when its first effect has run.
abbrev pub opened : DelayedPage
opened = record {
  filters = ("", "", "");
  timer = some ("", "", "");
  under_way = [];
  shown = none;
  failed = false;
}

-- The answers come in the order of the loads.
abbrev is_in_order : Move → Bool
is_in_order (answer n ok) = eqb n 0
is_in_order _ = true

-- The last of the loads under way, where there are some.
abbrev IsLatest : Filters → List Filters → Type 0 → Type 0
IsLatest f [] Settled = Settled
IsLatest f (g ∷ []) Settled = g ≡ f
IsLatest f (g ∷ h ∷ gs) Settled = IsLatest f (h ∷ gs) Settled

abbrev pub IsShown : DelayedPage → Type 0
IsShown p = (p.failed ≡ true) ⊎ (p.shown ≡ some p.filters)

-- The timer waits with the filters of the page, and without a timer the last load is with them.
abbrev IsCurrent : Option Filters → DelayedPage → Type 0
IsCurrent (some f) p = f ≡ p.filters
IsCurrent none p = IsLatest p.filters p.under_way (IsShown p)

IsLatest-append :
    (f : Filters) (gs : List Filters) (Settled : Type 0) → IsLatest f (gs ++ f ∷ []) Settled
IsLatest-append f [] Settled = refl
IsLatest-append f (g ∷ []) Settled = refl
IsLatest-append f (g ∷ h ∷ gs) Settled = IsLatest-append f (h ∷ gs) Settled

IsLatest-change :
    (f : Filters) (g : Filters) (gs : List Filters) (S T : Type 0)
    → IsLatest f (g ∷ gs) S
    → IsLatest f (g ∷ gs) T
IsLatest-change f g [] S T h = h
IsLatest-change f g (k ∷ ks) S T h = IsLatest-change f k ks S T h

refreshed-IsCurrent :
    (t : Option Filters) (p : DelayedPage)
    → IsCurrent t p
    → IsCurrent t (record p { under_way = p.under_way ++ p.filters ∷ [] })
refreshed-IsCurrent (some f) p h = h
refreshed-IsCurrent none p h = IsLatest-append p.filters p.under_way _

fired-IsCurrent :
    (t : Option Filters) (p : DelayedPage)
    → p.timer ≡ t
    → IsCurrent t p
    → IsCurrent (fired t p).timer (fired t p)
fired-IsCurrent none p e h = rw e h
fired-IsCurrent (some f) p e h =
    rw h (IsLatest-append p.filters p.under_way (IsShown (fired (some p.filters) p)))

-- The first load under way is answered.
settled_by :
    (ok : Bool) (g : Filters) (gs : List Filters) (p : DelayedPage)
    → IsLatest p.filters (g ∷ gs) (IsShown p)
    → let q = answered (some (g, gs)) ok p in IsLatest q.filters q.under_way (IsShown q)
settled_by true g [] p h = inr (ap some h)
settled_by false g [] p h = inl refl
settled_by true g (k ∷ ks) p h = IsLatest-change p.filters k ks _ _ h
settled_by false g (k ∷ ks) p h = IsLatest-change p.filters k ks _ _ h

under_none :
    (ok : Bool) (g : Filters) (gs : List Filters) (p : DelayedPage)
    → p.timer ≡ none
    → p.under_way ≡ g ∷ gs
    → IsCurrent none p
    → let q = answered (some (g, gs)) ok p in IsCurrent q.timer q
under_none true g gs p e k h =
    subst (λ t. IsCurrent t (answered (some (g, gs)) true p)) (sym e)
      (settled_by true g gs p (subst (λ us. IsLatest p.filters us (IsShown p)) k h))
under_none false g gs p e k h =
    subst (λ t. IsCurrent t (answered (some (g, gs)) false p)) (sym e)
      (settled_by false g gs p (subst (λ us. IsLatest p.filters us (IsShown p)) k h))

answered-IsCurrent :
    (t : Option Filters) (ok : Bool) (us : List Filters) (p : DelayedPage)
    → p.timer ≡ t
    → p.under_way ≡ us
    → IsCurrent t p
    → let q = answered (pick 0 us) ok p in IsCurrent q.timer q
answered-IsCurrent t ok [] p e k h = subst (λ s. IsCurrent s p) (sym e) h
answered-IsCurrent (some f) true (g ∷ gs) p e k h = rw e h
answered-IsCurrent (some f) false (g ∷ gs) p e k h = rw e h
answered-IsCurrent none true (g ∷ gs) p e k h = under_none true g gs p e k h
answered-IsCurrent none false (g ∷ gs) p e k h = under_none false g gs p e k h

move-IsCurrent :
    (m : Move) (p : DelayedPage)
    → is_in_order m ≡ true
    → IsCurrent p.timer p
    → IsCurrent (move m p).timer (move m p)
unfolding move
move-IsCurrent (set_filters f) p o h = refl
move-IsCurrent fire p o h = fired-IsCurrent p.timer p refl h
move-IsCurrent refresh p o h = refreshed-IsCurrent p.timer p h
move-IsCurrent (answer zero ok) p o h = answered-IsCurrent p.timer ok p.under_way p refl refl h
move-IsCurrent (answer (suc n) ok) p o h = ground (arith, o)

moves-IsCurrent :
    (ms : List Move) (p : DelayedPage)
    → all is_in_order ms ≡ true
    → IsCurrent p.timer p
    → IsCurrent (moves ms p).timer (moves ms p)
moves-IsCurrent [] p o h = h
moves-IsCurrent (m ∷ ms) p o h =
    let (first, rest) = and_parts (is_in_order m) (all is_in_order ms) o in
    moves-IsCurrent ms (move m p) rest (move-IsCurrent m p first h)

-- However the filters are changed, the timer fires and the log is refreshed, if the answers come in
-- the order of their loads, then once no timer waits and no load is under way, the log shown is
-- that of the filters on the page, or the last load failed.
pub moves-IsShown :
    (ms : List Move)
    → all is_in_order ms ≡ true
    → (moves ms opened).timer ≡ none
    → (moves ms opened).under_way ≡ []
    → IsShown (moves ms opened)
moves-IsShown ms o t u = settled t u (moves-IsCurrent ms opened o refl)
  where
    settled :
        {p : DelayedPage} → p.timer ≡ none → p.under_way ≡ [] → IsCurrent p.timer p → IsShown p
    settled {p} t u h =
        subst (λ us. IsLatest p.filters us (IsShown p)) u (subst (λ s. IsCurrent s p) t h)
