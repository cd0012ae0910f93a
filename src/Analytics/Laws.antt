-- ===== src/Analytics/Laws.antt =====
-- The bars of the analytics page stay inside their charts, the heat map shows the counts given for
-- its hours, and the load's outcomes.
use the_eye.Base.{
  true, all, is_some, and_parts, none, some, ℕ, zero, suc, ◌≤◌, ◌<◌, List, [], ◌∷◌, ◌≡◌, ◌∙◌, refl,
  ap, arith, map, take, length, All, eqb, if◌then◌else◌,
}
use the_eye.Doubles.{Doubles}
use the_eye.Charts.{hour_mix, max_or_one, sum_of, share}
use the_eye.Charts.Totals.{All-map, All-max_or_one, All-sum_of, max_or_one_pos}
use the_eye.Charts.Laws.{Within, share-Within, day_bar-Within, hour_mix-Within}
use the_eye.Activity.{Row, zeros, set_at}
use the_eye.Activity.Laws.{at, at-set_at, at-zeros}
use the_eye.Analytics.{counts_of, HourTotal, AnalyticsData, fill_hours, hours_of}
use the_eye.Analytics.View.{
  mixes_of, category_bars, severity_bars, outcome_bars, top_types, day_bars, hour_mixes,
}

All-unmap :
    {A B : Type 0} (Q : B → Type 0) (g : A → B) (xs : List A)
    → All Q (map g xs)
    → All (λ x. Q (g x)) xs
All-unmap Q g [] h = tt
All-unmap Q g (x ∷ xs) h = (h.0, All-unmap Q g xs h.1)

All-take : {A : Type 0} (Q : A → Type 0) (n : ℕ) (xs : List A) → All Q xs → All Q (take n xs)
All-take Q zero xs h = tt
All-take Q (suc n) [] h = tt
All-take Q (suc n) (x ∷ xs) h = (h.0, All-take Q n xs h.1)

module _ {R : Type 0} (count : R → ℕ) (rows : List R) where
  -- Every row counts at most the total, and at most the largest.
  All-total : All (λ r. count r ≤ sum_of (map count rows)) rows
  All-total = All-unmap (λ n. n ≤ sum_of (map count rows)) count rows (All-sum_of (map count rows))

  All-largest : All (λ r. count r ≤ max_or_one (map count rows)) rows
  All-largest =
      All-unmap (λ n. n ≤ max_or_one (map count rows)) count rows (All-max_or_one (map count rows))

  All-share :
      (d : Doubles)
      → All (Within d 0 100) (map (λ r. share d (count r) (sum_of (map count rows))) rows)
  All-share d =
      All-map (Within d 0 100) (λ r. share d (count r) (sum_of (map count rows)))
        (λ r. count r ≤ sum_of (map count rows))
        (λ r. share-Within d (count r) (sum_of (map count rows))) rows All-total

-- The count of the last entry of an hour, or the one given where there is none.
abbrev last_of : ℕ → List HourTotal → ℕ → ℕ
last_of hour [] x = x
last_of hour (h ∷ hs) x = last_of hour hs (if eqb h.hour hour then h.count else x)

length-set_at : (i x : ℕ) (xs : Row) → i < length xs → length (set_at i x xs) ≡ length xs
unfolding set_at
length-set_at i x [] h = ground (arith, h)
length-set_at zero x (y ∷ ys) h = refl
length-set_at (suc i) x (y ∷ ys) h = ground (arith, length-set_at i x ys (omega (arith, h)))

length-zeros : (n : ℕ) → length (zeros n) ≡ n
unfolding zeros
length-zeros zero = refl
length-zeros (suc n) = omega (arith, length-zeros n)

fill_hours_lem :
    (filled : Row) (hs : List HourTotal)
    → All (λ h. h.hour < length filled) hs
    → (length (fill_hours filled hs) ≡ length filled)
      × ((hour : ℕ) → at hour (fill_hours filled hs) ≡ last_of hour hs (at hour filled))
unfolding fill_hours
fill_hours_lem filled [] h = (refl, λ hour. refl)
fill_hours_lem filled (t ∷ ts) h =
    let same = length-set_at t.hour t.count filled h.0 in
    let (size, counts) = fill_hours_lem (set_at t.hour t.count filled) ts (rw same h.1) in
    (size ∙ same, λ hour. counts hour ∙ ap (last_of hour ts) (at-set_at t.hour hour t.count filled))

-- If every entry is of one of the 24 hours, the heat map has 24 cells, and the cell of each hour
-- holds the count of the last entry for it, and 0 where there is none.
hours_of_lem :
    (a : AnalyticsData)
    → All (λ h. h.hour < 24) a.activity_by_hour
    → (length (hours_of a) ≡ 24)
      × ((hour : ℕ) → at hour (hours_of a) ≡ last_of hour a.activity_by_hour 0)
unfolding hours_of
hours_of_lem a h =
    let (size, counts) = fill_hours_lem (zeros 24) a.activity_by_hour (rw (length-zeros 24) h) in
    (
      size ∙ length-zeros 24,
      λ hour. counts hour ∙ ap (last_of hour a.activity_by_hour) (at-zeros 24 hour),
    )

is_full-set_at :
    (i x : ℕ) (xs : Row)
    → i < length xs
    → all is_some xs ≡ true
    → all is_some (set_at i x xs) ≡ true
unfolding set_at
is_full-set_at i x [] h k = ground (arith, h)
is_full-set_at zero x (y ∷ ys) h k = (and_parts (is_some y) (all is_some ys) k).1
is_full-set_at (suc i) x (y ∷ ys) h k =
    let (first, rest) = and_parts (is_some y) (all is_some ys) k in
    rw first (is_full-set_at i x ys (omega (arith, h)) rest)

-- An array stays without holes where every entry is of an hour that it has.
is_full-fill_hours :
    (filled : Row) (hs : List HourTotal)
    → All (λ h. h.hour < length filled) hs
    → all is_some filled ≡ true
    → all is_some (fill_hours filled hs) ≡ true
unfolding fill_hours
is_full-fill_hours filled [] h k = k
is_full-fill_hours filled (t ∷ ts) h k =
    is_full-fill_hours (set_at t.hour t.count filled) ts
      (rw (length-set_at t.hour t.count filled h.0) h.1)
      (is_full-set_at t.hour t.count filled h.0 k)

counts_of-full :
    (xs : Row)
    → all is_some xs ≡ true
    → (ns : List ℕ) × (counts_of xs ≡ some ns) × (length ns ≡ length xs)
unfolding counts_of
counts_of-full [] h = ([], refl, refl)
counts_of-full (none ∷ xs) h = ground (arith, h)
counts_of-full (some n ∷ xs) h =
    let (ns, e, same) = counts_of-full xs h in (n ∷ ns, rw e refl, ap suc same)

is_full-hours_of :
    (a : AnalyticsData)
    → All (λ h. h.hour < 24) a.activity_by_hour
    → all is_some (hours_of a) ≡ true
unfolding hours_of zeros
is_full-hours_of a h =
    is_full-fill_hours (zeros 24) a.activity_by_hour (rw (length-zeros 24) h) refl

length-map : {A B : Type 0} (g : A → B) (xs : List A) → length (map g xs) ≡ length xs
length-map g [] = refl
length-map g (x ∷ xs) = ap suc (length-map g xs)

-- If every count by hour is of one of the 24 hours of a day, there are 24 shares of colour, from 0
-- to 88 percent.
hour_mixes-Within :
    (d : Doubles) (a : AnalyticsData)
    → All (λ h. h.hour < 24) a.activity_by_hour
    → (shares : List d.Double) × (hour_mixes d a ≡ some shares)
      × (length shares ≡ 24)
      × All (Within d 0 88) shares
unfolding hour_mixes
hour_mixes-Within d a h =
    let (counts, e, size) = counts_of-full (hours_of a) (is_full-hours_of a h) in
    let max = max_or_one counts in
    (
      map (λ c. hour_mix d c max) counts,
      ap (mixes_of d) e,
      length-map (λ c. hour_mix d c max) counts ∙ size ∙ (hours_of_lem a h).0,
      All-map (Within d 0 88) _ (λ c. c ≤ max)
          (λ c. hour_mix-Within d c max (max_or_one_pos counts)) counts (All-max_or_one counts),
    )

-- If every count by hour is of one of the 24 hours of a day: the bars by category, by severity and
-- by outcome, and those of the ten types that are shown, are from 0 to 100 percent wide, the bars of
-- the days are from 2 to 100 percent high, and each of the 24 hours has a share of colour from 0 to
-- 88 percent.
pub bars-Within :
    (d : Doubles) (a : AnalyticsData)
    → All (λ h. h.hour < 24) a.activity_by_hour
    → All (Within d 0 100) (category_bars d a)
      × All (Within d 0 100) (severity_bars d a)
      × All (Within d 0 100) (outcome_bars d a)
      × All (λ t. Within d 0 100 t.pct) (top_types d a)
      × All (Within d 2 100) (day_bars d a)
      × ((shares : List d.Double) × (hour_mixes d a ≡ some shares)
          × (length shares ≡ 24)
          × All (Within d 0 88) shares)
unfolding category_bars severity_bars outcome_bars top_types day_bars
bars-Within d a hours = (
  All-share (λ r. r.count) a.events_by_category d,
  All-share (λ r. r.count) a.events_by_severity d,
  All-share (λ r. r.count) a.outcome_breakdown d,
  All-map (λ t. Within d 0 100 t.pct) _ (λ r. r.count ≤ types) (λ r. share-Within d r.count types)
      (take 10 a.top_event_types)
      (All-take _ 10 a.top_event_types (All-total (λ r. r.count) a.top_event_types)),
  All-map (Within d 2 100) _ (λ r. r.count ≤ day)
      (λ r. day_bar-Within d r.count day (max_or_one_pos (map (λ t. t.count) a.events_by_day)))
      a.events_by_day (All-largest (λ r. r.count) a.events_by_day),
  hour_mixes-Within d a hours,
)
  where
    types : ℕ
    types = sum_of (map (λ r. r.count) a.top_event_types)

    day : ℕ
    day = max_or_one (map (λ r. r.count) a.events_by_day)
