-- ===== src/Staff/Palette.antt =====
-- The palette of commands (staff-portal/src/components/CommandPalette.tsx).
use the_eye.Base.{
  Bool, true, false, not, ◌&&◌, ◌||◌, List, [], ◌∷◌, String, ◌==◌, ◌≡◌, refl, filter, if◌then◌else◌,
}
use the_eye.Text.{text_includes, text_includes_nil}
use the_eye.Browser.{Browser, navigate}

pub record Command : Type 0 where
  pub label : String
  pub href : String
  pub category : String

abbrev to_page : String → String → Command
to_page label href = record { label = label; href = href; category = "Navigate" }

abbrev pub commands : List Command
commands =
    to_page "Dashboard" "/dashboard"
    ∷ to_page "Tenants" "/tenants"
    ∷ to_page "All Users" "/users"
    ∷ to_page "Billing" "/billing"
    ∷ to_page "Subscriptions" "/subscriptions"
    ∷ to_page "Analytics" "/analytics"
    ∷ to_page "Platform Health" "/health"
    ∷ to_page "Settings" "/settings"
    ∷ []

pub record Palette : Type 0 where
  pub is_open : Bool
  pub query : String

pub record KeyPress : Type 0 where
  pub meta : Bool
  pub ctrl : Bool
  pub key : String

-- Both tests are made of each key.
unfoldable pub handle_key : KeyPress → Palette → Palette
handle_key k p =
    let toggled =
      if (k.meta || k.ctrl) && k.key == "k"
      then record p { is_open = not p.is_open; query = "" }
      else p in
    if k.key == "Escape" then record toggled { is_open = false } else toggled

unfoldable pub filtered_commands : (String → String) → Palette → List Command
filtered_commands lower p = filter (λ c. text_includes (lower c.label) (lower p.query)) commands

unfoldable pub go : String → Palette → Browser → Palette × Browser
go href p b = (record p { is_open = false }, navigate href b)

-- Once it is opened by its key, the palette lists every command, whatever was typed before.
handle_key_opens :
    (lower : String → String) (k : KeyPress) (p : Palette)
    → lower "" ≡ ""
    → ((k.meta || k.ctrl) && k.key == "k") ≡ true
    → (k.key == "Escape") ≡ false
    → filtered_commands lower (handle_key k p) ≡ commands
unfolding handle_key filtered_commands
handle_key_opens lower k p h e n = rw (e, n, h) (all_listed commands)
  where
    all_listed : (cs : List Command) → filter (λ c. text_includes (lower c.label) "") cs ≡ cs
    all_listed [] = refl
    all_listed (c ∷ cs) = rw (text_includes_nil (lower c.label)) (rw (all_listed cs) refl)
