-- ===== src/Charts/Laws.antt =====
-- No bar leaves its chart.
use the_eye.Base.{
  sym, ◌∙◌, ℕ, ◌+◌, ◌*◌, ◌≤◌, ◌<◌, Bool, true, false, List, ◌≡◌, refl, ap, arith, subst, ltb, map,
  All, if◌then◌else◌,
}
use the_eye.Doubles.{Doubles}
use the_eye.Charts.{
  max_or_one, sum_of, at_least_one, percent, share, day_bar, hour_mix, progress, day_pixels,
  month_bar, rounded_share, rate,
}
use the_eye.Charts.Totals.{max_or_one_pos, All-map, All-max_or_one, All-sum_of}

zero_mul : (k : ℕ) → 0 * k ≡ 0
zero_mul k = omega arith

one_mul : (k : ℕ) → 1 * k ≡ k
one_mul k = omega arith

zero_le : (k : ℕ) → 0 ≤ k
zero_le k = omega arith

module _ (d : Doubles) where
  open d use {
    Double, of, div, mul, add, larger, smaller, round, Le, Le-refl, Le-trans, Le-of, Le-div,
    Le-div_zero, Le-mul, mul-of, Le-add, add-of, Le-round, round-of, Le-larger_left,
    Le-larger_right, larger-Le, smaller-Le_left, Le-smaller,
  }

  -- A bar that lies between two sizes.
  abbrev pub Within : ℕ → ℕ → Double → Type 0
  Within low high x = Le (of low) x × Le x (of high)

  Le-≡_left : {x y z : Double} → x ≡ y → Le y z → Le x z
  Le-≡_left {x} {y} {z} e h = subst (λ w. Le w z) (sym e) h

  Le-≡_right : {x y z : Double} → y ≡ z → Le x y → Le x z
  Le-≡_right {x} {y} {z} e h = subst (λ w. Le x w) e h

  scaled_zero : (k : ℕ) → of 0 ≡ mul (of 0) (of k)
  scaled_zero k = sym (mul-of 0 k (omega arith) ∙ ap of (zero_mul k))

  -- A part of a whole, scaled.
  scaled-Within :
      (k m n : ℕ)
      → k < 9007199254740992
      → 0 < n
      → m ≤ n
      → Within 0 k (mul (div (of m) (of n)) (of k))
  scaled-Within k m n small pos h = (
    Le-≡_left (scaled_zero k) (Le-mul k (Le-div_zero pos)),
    Le-≡_right (mul-of 1 k (omega (arith, small)) ∙ ap of (one_mul k)) (Le-mul k (Le-div pos h)),
  )

  larger-Within :
      (low high k : ℕ) (x : Double)
      → low ≤ high
      → Within k high x
      → Within low high (larger (of low) x)
  larger-Within low high k x l h = (Le-larger_left (of low) x, larger-Le (Le-of l) h.1)

  round-Within :
      (low high : ℕ) (x : Double)
      → low ≤ high
      → high < 9007199254740992
      → Within low high x
      → Within low high (round x)
  round-Within low high x l b h = (
    Le-≡_left (sym (round-of low (omega (arith, l, b)))) (Le-round h.0),
    Le-≡_right (round-of high b) (Le-round h.1),
  )

  percent-Within : (m n : ℕ) → 0 < n → m ≤ n → Within 0 100 (percent d m n)
  percent-Within m n pos h = scaled-Within 100 m n (omega arith) pos h

  zero-Within : (k : ℕ) → Within 0 k (of 0)
  zero-Within k = (Le-refl (of 0), Le-of (omega arith))

  guarded-Within :
      (b : Bool) (x : Double) → (b ≡ true → Within 0 100 x) → Within 0 100 (if b then x else of 0)
  guarded-Within true x h = h refl
  guarded-Within false x h = zero-Within 100

  pub share-Within : (m n : ℕ) → m ≤ n → Within 0 100 (share d m n)
  unfolding share
  share-Within m n h =
      guarded-Within (ltb 0 n) (percent d m n) (λ e. percent-Within m n (ground (arith, e)) h)

  rounded_share-Within : (m n : ℕ) → m ≤ n → Within 0 100 (rounded_share d m n)
  unfolding rounded_share
  rounded_share-Within m n h = guarded-Within (ltb 0 n) (round (percent d m n)) (λ e.
      round-Within 0 100 (percent d m n) (omega arith) (omega arith)
        (percent-Within m n (ground (arith, e)) h))

  pub day_bar-Within : (m n : ℕ) → 0 < n → m ≤ n → Within 2 100 (day_bar d m n)
  unfolding day_bar
  day_bar-Within m n pos h =
      larger-Within 2 100 0 (percent d m n) (omega arith) (percent-Within m n pos h)

  day_pixels-Within : (m n : ℕ) → 0 < n → m ≤ n → Within 2 128 (day_pixels d m n)
  unfolding day_pixels
  day_pixels-Within m n pos h =
      larger-Within 2 128 0 _ (omega arith) (scaled-Within 128 m n (omega arith) pos h)

  pub hour_mix-Within : (m n : ℕ) → 0 < n → m ≤ n → Within 0 88 (hour_mix d m n)
  unfolding hour_mix
  hour_mix-Within m n pos h = round-Within 0 88 _ (omega arith) (omega arith) (lifted (ltb 0 m))
    where
      inside : Within 0 80 (mul (div (of m) (of n)) (of 80))
      inside = scaled-Within 80 m n (omega arith) pos h

      raised : (k : ℕ) → k ≤ 8 → Within 0 88 (add (mul (div (of m) (of n)) (of 80)) (of k))
      raised k l = (
        Le-trans (Le-of (zero_le (0 + k)))
            (Le-≡_left (sym (add-of 0 k (omega (arith, l)))) (Le-add k inside.0)),
        Le-trans (Le-≡_right (add-of 80 k (omega (arith, l))) (Le-add k inside.1))
            (Le-of (omega (arith, l))),
      )

      lifted :
          (b : Bool) → Within 0 88 (add (mul (div (of m) (of n)) (of 80)) (of (if b then 8 else 0)))
      lifted true = raised 8 (omega arith)
      lifted false = raised 0 (omega arith)

  month_bar-Within : (m n : ℕ) → 0 < n → m ≤ n → Within 4 100 (month_bar d m n)
  unfolding month_bar
  month_bar-Within m n pos h = (
    Le-larger_right (round (percent d m n)) (of 4),
    larger-Le (round-Within 0 100 _ (omega arith) (omega arith) (percent-Within m n pos h)).1
        (Le-of (omega arith)),
  )

  rate-Within : (m n : ℕ) → m ≤ n → Within 0 100 (rate d m n)
  unfolding rate
  rate-Within m n h =
      round-Within 0 100 _ (omega arith) (omega arith)
        (percent-Within m (at_least_one n) (ground arith) (ground (arith, h)))

  progress-Within : (m n : ℕ) → 0 < n → Within 0 100 (progress d (of m) (of n))
  unfolding progress
  progress-Within m n pos = (
    Le-larger_left (of 0) (smaller (of 100) (percent d m n)),
    larger-Le (Le-of (omega arith)) (smaller-Le_left (of 100) (percent d m n)),
  )

  -- For every list of counts: with the shares taken of the sum of the list, every bar of a share,
  -- rounded or not, and every rate is from 0 to 100 percent; with the heights taken of the largest
  -- count (1 where all are 0), every bar of a day is from 2 to 100 percent high and, in the staff
  -- portal, from 2 to 128 pixels, every bar of a month is from 4 to 100 percent high, and the
  -- share of colour of every hour is from 0 to 88 percent.
  All-bars-Within :
      (counts : List ℕ)
      → All (Within 0 100) (map (λ c. share d c (sum_of counts)) counts)
        × All (Within 0 100) (map (λ c. rounded_share d c (sum_of counts)) counts)
        × All (Within 0 100) (map (λ c. rate d c (sum_of counts)) counts)
        × All (Within 2 100) (map (λ c. day_bar d c (max_or_one counts)) counts)
        × All (Within 2 128) (map (λ c. day_pixels d c (max_or_one counts)) counts)
        × All (Within 4 100) (map (λ c. month_bar d c (max_or_one counts)) counts)
        × All (Within 0 88) (map (λ c. hour_mix d c (max_or_one counts)) counts)
  All-bars-Within counts = (
    of_total (Within 0 100) _ (λ c. share-Within c (sum_of counts)),
    of_total (Within 0 100) _ (λ c. rounded_share-Within c (sum_of counts)),
    of_total (Within 0 100) _ (λ c. rate-Within c (sum_of counts)),
    of_max (Within 2 100) _ (λ c. day_bar-Within c (max_or_one counts) pos),
    of_max (Within 2 128) _ (λ c. day_pixels-Within c (max_or_one counts) pos),
    of_max (Within 4 100) _ (λ c. month_bar-Within c (max_or_one counts) pos),
    of_max (Within 0 88) _ (λ c. hour_mix-Within c (max_or_one counts) pos),
  )
    where
      pos : 0 < max_or_one counts
      pos = max_or_one_pos counts

      of_total :
          (P : Double → Type 0) (f : ℕ → Double)
          → ((c : ℕ) → c ≤ sum_of counts → P (f c))
          → All P (map f counts)
      of_total P f h = All-map P f (λ c. c ≤ sum_of counts) h counts (All-sum_of counts)

      of_max :
          (P : Double → Type 0) (f : ℕ → Double)
          → ((c : ℕ) → c ≤ max_or_one counts → P (f c))
          → All P (map f counts)
      of_max P f h = All-map P f (λ c. c ≤ max_or_one counts) h counts (All-max_or_one counts)
