-- ===== src/Query/Decimal/Cents.antt =====
-- String(x) for a number of hundredths, as prices are, and reading it back.
use Prim.Native.Char.{Char, code}
use Prim.Native.String.{[], ◌∷◌}
use text.Mathlib.TextLemmas.{nil-append, cons-append, append_assoc}
use the_eye.Base.{
  ℕ, zero, suc, ◌+◌, ◌-◌, ◌*◌, ◌/◌, ◌%◌, ◌≤◌, ◌<◌, String, ◌⧺◌, ◌≡◌, refl, ap, ◌∙◌, arith, inl, inr,
  ltb, eqb, ◌==◌, false, Bool-cases, if◌then◌else◌,
}
use the_eye.Text.{cons_not_nil}
use the_eye.Query.Decimal.{digit, decimal_from, decimal, decimal_not_nil}

-- The point and what stands behind it, without zeros at the end.
abbrev fraction : ℕ → String
fraction f =
    if eqb f 0
    then ""
    else if eqb (f % 10) 0
    then "." ⧺ digit (f / 10)
    else "." ⧺ digit (f / 10) ⧺ digit (f % 10)

unfoldable pub price_text : ℕ → String
price_text n = decimal (n / 100) ⧺ fraction (n % 100)

-- Up to two digits behind the point.
abbrev read_fraction : ℕ → String → ℕ
read_fraction acc [] = acc * 100
read_fraction acc (c ∷ []) = (acc * 10 + (code c - 48)) * 10
read_fraction acc (c ∷ d ∷ s) = (acc * 10 + (code c - 48)) * 10 + (code d - 48)

read_from : ℕ → String → ℕ
read_from acc [] = acc * 100
read_from acc (c ∷ s) =
    let rest = read_from (acc * 10 + (code c - 48)) s in
    if eqb (code c) b'.' then read_fraction acc s else rest

pub read_price : String → ℕ
unfolding read_from
read_price s = read_from 0 s

abbrev digit_char : ℕ → Char
digit_char zero = "0"
digit_char (suc zero) = "1"
digit_char (suc (suc zero)) = "2"
digit_char (suc (suc (suc zero))) = "3"
digit_char (suc (suc (suc (suc zero)))) = "4"
digit_char (suc (suc (suc (suc (suc zero))))) = "5"
digit_char (suc (suc (suc (suc (suc (suc zero)))))) = "6"
digit_char (suc (suc (suc (suc (suc (suc (suc zero))))))) = "7"
digit_char (suc (suc (suc (suc (suc (suc (suc (suc zero)))))))) = "8"
digit_char _ = "9"

digit_lem : (d : ℕ) → digit d ≡ digit_char d ∷ []
digit_lem (suc (suc (suc (suc (suc (suc (suc (suc zero)))))))) = refl
digit_lem _ = refl

code-digit_char : (d : ℕ) → d < 10 → code (digit_char d) ≡ 48 + d
code-digit_char (suc (suc (suc (suc (suc (suc (suc (suc zero)))))))) h = omega arith
code-digit_char _ h = omega arith

not_point : (d : ℕ) → eqb (48 + d) b'.' ≡ false
not_point d = ground arith

read_from-digit :
    (acc d : ℕ) (t : String) → d < 10 → read_from acc (digit d ⧺ t) ≡ read_from (acc * 10 + d) t
unfolding read_from
read_from-digit acc d t h = rw (digit_lem d) (
    rw cons-append (
      rw nil-append
        (rw (code-digit_char d h) (rw (not_point d) (ap (λ k. read_from k t) (omega arith))))))

read_from-decimal_from :
    (fuel n : ℕ) (t : String) → n ≤ fuel → read_from 0 (decimal_from fuel n ⧺ t) ≡ read_from n t
unfolding decimal_from
read_from-decimal_from zero n t h =
    read_from-digit 0 n t (omega arith) ∙ ap (λ k. read_from k t) (omega arith)
read_from-decimal_from (suc fuel) n t h = elim (Bool-cases (ltb n 10)) [
  | inl small ↦
      rw small (read_from-digit 0 n t (ground arith) ∙ ap (λ k. read_from k t) (omega arith))
  | inr big ↦ rw big (
      rw append_assoc (
        read_from-decimal_from fuel (n / 10) (digit (n % 10) ⧺ t) (ground arith)
        ∙ (read_from-digit (n / 10) (n % 10) t (omega arith)
            ∙ ap (λ k. read_from k t) (omega arith))))
]

read_fraction-digit : (acc d : ℕ) → d < 10 → read_from acc ("." ⧺ digit d) ≡ (acc * 10 + d) * 10
unfolding read_from
read_fraction-digit acc d h =
    rw (digit_lem d) (rw cons-append (rw nil-append (rw (code-digit_char d h) (omega arith))))

read_fraction-digits :
    (acc d e : ℕ)
    → d < 10
    → e < 10
    → read_from acc ("." ⧺ digit d ⧺ digit e) ≡ (acc * 10 + d) * 10 + e
unfolding read_from
read_fraction-digits acc d e h k =
    rw (digit_lem d, digit_lem e)
      (rw cons-append (
        rw nil-append (
          rw cons-append
            (rw nil-append (rw (code-digit_char d h, code-digit_char e k) (omega arith))))))

read_from-fraction : (acc f : ℕ) → f < 100 → read_from acc (fraction f) ≡ acc * 100 + f
unfolding read_from
read_from-fraction acc f h = elim (Bool-cases (eqb f 0)) [
  | inl none ↦ rw none (ground arith)
  | inr some ↦ elim (Bool-cases (eqb (f % 10) 0)) [
    | inl one ↦ rw some (rw one (read_fraction-digit acc (f / 10) (omega arith) ∙ ground arith))
    | inr two ↦ rw some (
        rw two
          (read_fraction-digits acc (f / 10) (f % 10) (omega arith) (omega arith) ∙ omega arith))
  ]
]

pub read_price-price_text : (n : ℕ) → read_price (price_text n) ≡ n
unfolding read_price price_text decimal
read_price-price_text n =
    read_from-decimal_from (n / 100) (n / 100) (fraction (n % 100)) (omega arith)
    ∙ (read_from-fraction (n / 100) (n % 100) (omega arith) ∙ omega arith)

append_not_nil : (s t : String) → (s == "") ≡ false → (s ⧺ t == "") ≡ false
append_not_nil [] t h = ground (arith, h)
append_not_nil (c ∷ s) t h = rw cons-append (cons_not_nil c _)

pub price_text_not_nil : (n : ℕ) → (price_text n == "") ≡ false
unfolding price_text
price_text_not_nil n =
    append_not_nil (decimal (n / 100)) (fraction (n % 100)) (decimal_not_nil (n / 100))
