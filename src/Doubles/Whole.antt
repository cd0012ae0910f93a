-- ===== src/Doubles/Whole.antt =====
-- An instance of the interface: whole numbers, with the quotient rounded down.
use the_eye.Base.{ℕ, ◌≤◌, ◌<◌, ◌+◌, ◌*◌, ◌/◌, refl, arith, leb, if◌then◌else◌}
use the_eye.Doubles.{Doubles}

pub quotient_le_one : (m n : ℕ) → 0 < n → m ≤ n → m / n ≤ 1
quotient_le_one m n h l = grind arith

pub larger-le : (x y z : ℕ) → x ≤ z → y ≤ z → (if leb x y then y else x) ≤ z
larger-le x y z h l = ground arith

pub le-smaller : (x y z : ℕ) → z ≤ x → z ≤ y → z ≤ (if leb x y then x else y)
le-smaller x y z h l = ground arith

pub le-larger : (x y : ℕ) → x ≤ (if leb x y then y else x)
le-larger x y = ground arith

pub le-larger_right : (x y : ℕ) → y ≤ (if leb x y then y else x)
le-larger_right x y = ground arith

pub smaller-le : (x y : ℕ) → (if leb x y then x else y) ≤ x
smaller-le x y = ground arith

pub mul_mono : (x y k : ℕ) → x ≤ y → x * k ≤ y * k
mul_mono x y k h = grind arith

pub le_refl : (x : ℕ) → x ≤ x
le_refl x = omega arith

pub le_trans : (x y z : ℕ) → x ≤ y → y ≤ z → x ≤ z
le_trans x y z h l = omega arith

pub add_mono : (x y k : ℕ) → x ≤ y → x + k ≤ y + k
add_mono x y k h = omega arith

pub zero_le : (x : ℕ) → 0 ≤ x
zero_le x = omega arith

abbrev pub whole : Doubles
whole = record {
  Double = ℕ;
  of = λ n. n;
  div = λ x y. x / y;
  mul = λ x y. x * y;
  add = λ x y. x + y;
  larger = λ x y. if leb x y then y else x;
  smaller = λ x y. if leb x y then x else y;
  round = λ x. x;
  Le = λ x y. x ≤ y;
  Le-refl = le_refl;
  Le-trans = λ {x} {y} {z}. le_trans x y z;
  Le-of = λ {m} {n} h. h;
  Le-div = λ {m} {n}. quotient_le_one m n;
  Le-div_zero = λ {m} {n} h. zero_le (m / n);
  Le-mul = λ {x} {y} k. mul_mono x y k;
  mul-of = λ m n h. refl;
  Le-add = λ {x} {y} k. add_mono x y k;
  add-of = λ m n h. refl;
  Le-round = λ {x} {y} h. h;
  round-of = λ n h. refl;
  Le-larger_left = le-larger;
  Le-larger_right = le-larger_right;
  larger-Le = λ {x} {y} {z}. larger-le x y z;
  smaller-Le_left = smaller-le;
  Le-smaller = λ {x} {y} {z}. le-smaller x y z;
}
