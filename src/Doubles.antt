-- ===== src/Doubles.antt =====
-- The numbers of JavaScript (IEEE 754 doubles) as an interface: the operations that the charts of
-- both portals use, and what they rely on, all of it about finite numbers that are not negative.
-- Rounding to the nearest double is monotone, which is what the laws of `div`, `mul` and `add` say.
pub mod Whole
use the_eye.Base.{ℕ, ◌≤◌, ◌<◌, ◌+◌, ◌*◌, ◌≡◌}

pub record Doubles : Type 1 where
  pub Double : Type 0
  pub of : ℕ → Double
  pub div : Double → Double → Double
  pub mul : Double → Double → Double
  pub add : Double → Double → Double
  pub larger : Double → Double → Double
  pub smaller : Double → Double → Double
  pub round : Double → Double
  pub Le : Double → Double → Type 0
  pub Le-refl : (x : Double) → Le x x
  pub Le-trans : {x y z : Double} → Le x y → Le y z → Le x z
  pub Le-of : {m n : ℕ} → m ≤ n → Le (of m) (of n)
  pub Le-div : {m n : ℕ} → 0 < n → m ≤ n → Le (div (of m) (of n)) (of 1)
  pub Le-div_zero : {m n : ℕ} → 0 < n → Le (of 0) (div (of m) (of n))
  pub Le-mul : {x y : Double} (k : ℕ) → Le x y → Le (mul x (of k)) (mul y (of k))
  pub mul-of : (m n : ℕ) → m * n < 9007199254740992 → mul (of m) (of n) ≡ of (m * n)
  pub Le-add : {x y : Double} (k : ℕ) → Le x y → Le (add x (of k)) (add y (of k))
  pub add-of : (m n : ℕ) → m + n < 9007199254740992 → add (of m) (of n) ≡ of (m + n)
  pub Le-round : {x y : Double} → Le x y → Le (round x) (round y)
  pub round-of : (n : ℕ) → n < 9007199254740992 → round (of n) ≡ of n
  pub Le-larger_left : (x y : Double) → Le x (larger x y)
  pub Le-larger_right : (x y : Double) → Le y (larger x y)
  pub larger-Le : {x y z : Double} → Le x z → Le y z → Le (larger x y) z
  pub smaller-Le_left : (x y : Double) → Le (smaller x y) x
  pub Le-smaller : {x y z : Double} → Le z x → Le z y → Le z (smaller x y)
