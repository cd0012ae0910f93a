-- ===== src/Charts/Ticks.antt =====
-- The labels under the chart of the days (DayBarChart of frontend/src/app/analytics/page.tsx).
use the_eye.Base.{
  ℕ, zero, suc, ◌+◌, ◌*◌, ◌/◌, ◌%◌, ◌≤◌, ◌<◌, Bool, ◌||◌, ◌≡◌, refl, arith, leb, eqb, Bool-cases,
  inl, inr, if◌then◌else◌,
}

-- Math.ceil(length / 12)
unfoldable pub tick_distance : ℕ → ℕ
tick_distance length = (length + 11) / 12

unfoldable pub show_tick : ℕ → ℕ → Bool
unfolding tick_distance
show_tick length i = leb length 15 || eqb (i % tick_distance length) 0

-- How many of the numbers below n pass the test.
abbrev pub count_below : ℕ → (ℕ → Bool) → ℕ
count_below zero p = 0
count_below (suc n) p = (if p n then 1 else 0) + count_below n p

count_below-le : (n : ℕ) (p : ℕ → Bool) → count_below n p ≤ n
count_below-le zero p = omega arith
count_below-le (suc n) p = ground (arith, count_below-le n p)

whole_quotient : (c k q : ℕ) → c * k < q * k + k → c ≤ q
whole_quotient c k q h = grind arith

multiple : (n k : ℕ) → 0 < k → n % k ≡ 0 → (n / k) * k ≡ n
multiple n k h e = grind arith

next_multiple : (c n k : ℕ) → 0 < k → n % k ≡ 0 → c * k < n + k → (1 + c) * k < suc n + k
next_multiple c n k h e below =
    let exact = multiple n k h e in
    let few : c ≤ n / k = whole_quotient c k (n / k) (omega (arith, exact)) in
    grind (arith, few, exact)

multiples_below : (n k : ℕ) → 0 < k → count_below n (λ i. eqb (i % k) 0) * k < n + k
multiples_below zero k h = omega arith
multiples_below (suc n) k h = elim (Bool-cases (eqb (n % k) 0)) [
  | inl e ↦ rw e (next_multiple _ n k h (ground (arith, e)) (multiples_below n k h))
  | inr e ↦ rw e (omega (arith, multiples_below n k h))
]

few_multiples : (n c : ℕ) → 0 < n → c * ((n + 11) / 12) < n + (n + 11) / 12 → c ≤ 12
few_multiples n c h below =
    let k : ℕ = (n + 11) / 12 in
    let wide : n ≤ 12 * k = omega arith in
    let few : c < 13 = grind (arith, below, wide) in omega (arith, few)

count_below_ext :
    (n : ℕ) (p q : ℕ → Bool) → ((i : ℕ) → p i ≡ q i) → count_below n p ≡ count_below n q
count_below_ext zero p q h = refl
count_below_ext (suc n) p q h = rw (h n, count_below_ext n p q h) refl

-- However many days are shown, at most fifteen of them are labelled.
pub show_tick_few : (length : ℕ) → count_below length (show_tick length) ≤ 15
unfolding show_tick tick_distance
show_tick_few length = elim (Bool-cases (leb length 15)) [
  | inl e ↦ ground (arith, count_below-le length (show_tick length), e)
  | inr e ↦
      let k : ℕ = (length + 11) / 12 in
      let many : 15 < length = ground (arith, e) in
      let multiples : ℕ → Bool = λ i. eqb (i % k) 0 in
      let few =
        few_multiples length (count_below length multiples) (omega (arith, many))
          (multiples_below length k (omega (arith, many))) in
      omega (arith, few, count_below_ext length (show_tick length) multiples (λ i. rw e refl))
]
