-- ===== src/Charts/Totals.antt =====
-- The largest count and the sum of a list bound each of its counts.
use the_eye.Base.{ℕ, ◌+◌, ◌≤◌, ◌<◌, List, [], ◌∷◌, arith, map, All}
use the_eye.Charts.{max_or_one, sum_of}

pub max_or_one_pos : (ns : List ℕ) → 0 < max_or_one ns
unfolding max_or_one
max_or_one_pos [] = omega arith
max_or_one_pos (n ∷ ns) = ground (arith, max_or_one_pos ns)

pub All-map {ℓ} :
    {A B : Type 0} (P : B → Type ℓ) (f : A → B) (Q : A → Type 0)
    → ((a : A) → Q a → P (f a))
    → (xs : List A) → All Q xs
    → All P (map f xs)
All-map P f Q step [] h = tt
All-map P f Q step (x ∷ xs) h = (step x h.0, All-map P f Q step xs h.1)

All-weaken : (m n : ℕ) → m ≤ n → (xs : List ℕ) → All (λ x. x ≤ m) xs → All (λ x. x ≤ n) xs
All-weaken m n h [] a = tt
All-weaken m n h (x ∷ xs) a = (omega (arith, h, a.0), All-weaken m n h xs a.1)

pub All-max_or_one : (ns : List ℕ) → All (λ n. n ≤ max_or_one ns) ns
unfolding max_or_one
All-max_or_one [] = tt
All-max_or_one (n ∷ ns) = (
  ground arith,
  All-weaken (max_or_one ns) (max_or_one (n ∷ ns)) (ground arith) ns (All-max_or_one ns),
)

pub All-sum_of : (ns : List ℕ) → All (λ n. n ≤ sum_of ns) ns
unfolding sum_of
All-sum_of [] = tt
All-sum_of (n ∷ ns) =
    (omega arith, All-weaken (sum_of ns) (n + sum_of ns) (omega arith) ns (All-sum_of ns))
