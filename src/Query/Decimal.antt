-- ===== src/Query/Decimal.antt =====
-- String(n) for a natural number, and reading it back.
pub mod Cents
use Prim.Native.Char.{code}
use Prim.Native.String.{[], ◌∷◌}
use text.Mathlib.TextLemmas.{nil-append, cons-append}
use the_eye.Base.{
  ℕ, zero, suc, ◌+◌, ◌-◌, ◌*◌, ◌/◌, ◌%◌, ◌≤◌, ◌<◌, String, ◌⧺◌, ◌≡◌, refl, sym, ◌∙◌, ap, arith, inl,
  inr, ltb, ◌==◌, eq_iff, true, false, Bool-cases, if◌then◌else◌,
}

abbrev digit : ℕ → String
digit zero = "0"
digit (suc zero) = "1"
digit (suc (suc zero)) = "2"
digit (suc (suc (suc zero))) = "3"
digit (suc (suc (suc (suc zero)))) = "4"
digit (suc (suc (suc (suc (suc zero))))) = "5"
digit (suc (suc (suc (suc (suc (suc zero)))))) = "6"
digit (suc (suc (suc (suc (suc (suc (suc zero))))))) = "7"
digit (suc (suc (suc (suc (suc (suc (suc (suc zero)))))))) = "8"
digit _ = "9"

-- Each round takes off the last digit.
decimal_from : ℕ → ℕ → String
decimal_from zero n = digit n
decimal_from (suc fuel) n =
    let more = ◌⧺◌ (decimal_from fuel (n / 10)) (digit (n % 10)) in
    if ltb n 10 then digit n else more

unfoldable pub decimal : ℕ → String
unfolding decimal_from
decimal n = decimal_from n n

-- The number that digits stand for, after those read so far.
read_decimal : ℕ → String → ℕ
read_decimal acc [] = acc
read_decimal acc (c ∷ s) = read_decimal (acc * 10 + (code c - 48)) s

read_decimal-append :
    (acc : ℕ) (s t : String) → read_decimal acc (◌⧺◌ s t) ≡ read_decimal (read_decimal acc s) t
unfolding read_decimal
read_decimal-append acc [] t = rw nil-append
read_decimal-append acc (c ∷ s) t =
    rw cons-append (read_decimal-append (acc * 10 + (code c - 48)) s t)

read_decimal-digit : (acc d : ℕ) → d < 10 → read_decimal acc (digit d) ≡ acc * 10 + d
unfolding read_decimal
read_decimal-digit acc (suc (suc (suc (suc (suc (suc (suc (suc zero)))))))) h = omega arith
read_decimal-digit acc _ h = omega arith

-- Fuel `n` is enough: each round divides by ten.
read_decimal-decimal_from : (fuel n : ℕ) → n ≤ fuel → read_decimal 0 (decimal_from fuel n) ≡ n
unfolding decimal_from
read_decimal-decimal_from zero n h = read_decimal-digit 0 n (omega arith) ∙ omega arith
read_decimal-decimal_from (suc fuel) n h = elim (Bool-cases (ltb n 10)) [
  | inl small ↦ rw small (read_decimal-digit 0 n (ground arith) ∙ omega arith)
  | inr big ↦ rw big (
      rw read_decimal-append (
        rw (read_decimal-decimal_from fuel (n / 10) (ground arith))
          (read_decimal-digit (n / 10) (n % 10) (omega arith) ∙ omega arith)))
]

-- Distinct numbers are written differently.
pub decimal-injective : (m n : ℕ) → decimal m ≡ decimal n → m ≡ n
unfolding decimal
decimal-injective m n e =
    sym (read_decimal-decimal_from m m (omega arith))
    ∙ ap (read_decimal 0) e
    ∙ read_decimal-decimal_from n n (omega arith)

-- What the digits of a number stand for.
pub value_of : String → ℕ
unfolding read_decimal
value_of s = read_decimal 0 s

pub value_of-decimal : (n : ℕ) → value_of (decimal n) ≡ n
unfolding value_of decimal
value_of-decimal n = read_decimal-decimal_from n n (omega arith)

decimal_of_nil : (n : ℕ) → (decimal n == "") ≡ true → n ≡ 0
unfolding value_of read_decimal
decimal_of_nil n e =
    let same : value_of (decimal n) ≡ 0 = ap value_of ((eq_iff (decimal n) "").0 e) in
    sym (value_of-decimal n) ∙ same

positive_not_nil : (n : ℕ) → (decimal (suc n) == "") ≡ false
positive_not_nil n = elim (Bool-cases (decimal (suc n) == "")) [
  | inl e ↦ ground (arith, decimal_of_nil (suc n) e)
  | inr e ↦ e
]

-- A number is written with a digit at least.
pub decimal_not_nil : (n : ℕ) → (decimal n == "") ≡ false
unfolding decimal decimal_from
decimal_not_nil zero = refl
decimal_not_nil (suc n) = positive_not_nil n
