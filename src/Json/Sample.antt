-- ===== src/Json/Sample.antt =====
-- A codec that meets the interface, for tests and witnesses: a text is written character by
-- character between marks, an object as the number of its properties and then each of them.
use Prim.Native.Char.{code}
use Prim.Native.String.{String, [], ◌∷◌}
use mathlib.Core.List.{List, [], ◌∷◌}
use the_eye.Base.{ℕ, zero, suc, Option, none, some, ◌≡◌, refl, eqb, if◌then◌else◌}
use the_eye.Json.{Json, null, str, obj, Fields, end, field, flat_fields, flat, text_or_null}
use the_eye.Json.Codec.{Codec}

abbrev write_count : ℕ → String → String
write_count zero r = "." ∷ r
write_count (suc n) r = "x" ∷ write_count n r

abbrev write_text : String → String → String
write_text [] r = "." ∷ r
write_text (c ∷ s) r = "x" ∷ c ∷ write_text s r

abbrev write_value : Json → String → String
write_value (str s) r = "x" ∷ write_text s r
write_value _ r = "." ∷ r

abbrev write_fields : Fields → String → String
write_fields end r = r
write_fields (field k v fs) r = write_text k (write_value v (write_fields fs r))

abbrev count_fields : Fields → ℕ
count_fields end = zero
count_fields (field k v fs) = suc (count_fields fs)

abbrev write : Json → String
write (obj fs) = write_count (count_fields fs) (write_fields fs "")
write _ = "?"

-- What is read, and the rest of the text.
read_count : String → Option (ℕ × String)
read_count [] = none
read_count (c ∷ r) =
    let more : Option (ℕ × String) = elim (read_count r) [
      | none ↦ none
      | some (n, s) ↦ some (suc n, s)
    ] in
    if eqb (code c) b'.' then some (zero, r) else more

read_text : String → String × String
read_text [] = ([], [])
read_text (m ∷ []) = ([], [])
read_text (m ∷ c ∷ r) =
    let (s, rest) = read_text r in if eqb (code m) b'.' then ([], c ∷ r) else (c ∷ s, rest)

read_value : String → Json × String
read_value [] = (null, [])
read_value (m ∷ r) =
    let (s, rest) = read_text r in if eqb (code m) b'.' then (null, r) else (str s, rest)

read_fields : ℕ → String → Fields × String
read_fields zero r = (end, r)
read_fields (suc n) r =
    let (k, r₁) = read_text r in
    let (v, r₂) = read_value r₁ in let (fs, r₃) = read_fields n r₂ in (field k v fs, r₃)

read : String → Option Json
read t = elim (read_count t) [ none ↦ none | some (n, r) ↦ some (obj (read_fields n r).0) ]

read-write_count : (n : ℕ) (r : String) → read_count (write_count n r) ≡ some (n, r)
unfolding read_count
read-write_count zero r = refl
read-write_count (suc n) r = rw (read-write_count n r)

read-write_text : (s r : String) → read_text (write_text s r) ≡ (s, r)
unfolding read_text
read-write_text [] [] = refl
read-write_text [] (c ∷ r) = refl
read-write_text (c ∷ s) r = rw (read-write_text s r)

read-write_value :
    (v : Option String) (r : String)
    → read_value (write_value (text_or_null v) r) ≡ (text_or_null v, r)
unfolding read_value read_text
read-write_value none [] = refl
read-write_value none (c ∷ r) = refl
read-write_value (some s) r = rw (read-write_text s r)

read-write_fields :
    (ps : List (String × Option String)) (r : String)
    → read_fields (count_fields (flat_fields ps)) (write_fields (flat_fields ps) r)
      ≡ (flat_fields ps, r)
unfolding read_fields
read-write_fields [] r = refl
read-write_fields ((k, v) ∷ ps) r = simp (read-write_text, read-write_value, read-write_fields ps r)

read-write : (ps : List (String × Option String)) → read (write (flat ps)) ≡ some (flat ps)
unfolding read
read-write ps =
    rw (read-write_count (count_fields (flat_fields ps)) (write_fields (flat_fields ps) ""), read)
      (rw (read-write_fields ps ""))

pub sample_codec : Codec
unfolding read read_count
sample_codec = record {
  stringify = write;
  parse = read;
  parse-stringify = λ ps _. read-write ps;
  parse_empty = refl;
}
