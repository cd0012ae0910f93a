-- ===== src/Signup/Dashes.antt =====
-- The replacements that make the identifier, on the text's characters.
use Prim.Native.Char.{code}
use Prim.Native.String.{[], ◌∷◌}
use the_eye.Base.{ℕ, Bool, true, false, ◌&&◌, ◌||◌, String, leb, eqb, if◌then◌else◌}

-- [a-z0-9]
abbrev pub is_slug_char : ℕ → Bool
is_slug_char n = leb b'a' n && leb n b'z' || leb b'0' n && leb n b'9'

abbrev pub is_dash : ℕ → Bool
is_dash n = eqb n b'-'

-- replace(/[^a-z0-9]+/g, "-"), where the flag says that a run has its dash already
unfoldable pub dashes : Bool → String → String
dashes run [] = []
dashes run (c ∷ s) =
    let kept = c ∷ dashes false s in
    let more = dashes true s in
    if is_slug_char (code c) then kept else if run then more else "-" ∷ more

-- replace(/^-|-$/g, "")
unfoldable pub strip_leading : String → String
strip_leading [] = []
strip_leading (c ∷ s) = if is_dash (code c) then s else c ∷ s

unfoldable pub strip_trailing : String → String
strip_trailing [] = []
strip_trailing (c ∷ []) = if is_dash (code c) then [] else c ∷ []
strip_trailing (c ∷ d ∷ s) = c ∷ strip_trailing (d ∷ s)
