-- ===== src/Keys/Limit.antt =====
-- The limit on the number of keys.
use the_eye.Base.{ℕ, ◌≤◌, true, none, some, ◌≡◌, ◌≢◌, arith, length, Option}
use the_eye.Base.Dict.{Dict, lookup}
use the_eye.Api.Keys.{Plan, SubscriptionOut}
use the_eye.Keys.{KeysPage, plan_key_limit, at_limit}

-- The limit is never "unlimited".
pub plan_key_limit-ne-none : (sub : Option SubscriptionOut) → plan_key_limit sub ≢ none
unfolding plan_key_limit
plan_key_limit-ne-none sub = cc

-- A plan whose limit on keys is `null`, which means unlimited, is held to twenty keys: with as many
-- the page offers an upgrade instead of a new key.
pub at_limit_unlimited :
    (page : KeysPage) (s : SubscriptionOut) (p : Plan) (limits : Dict (Option ℕ))
    → page.sub ≡ some s
    → s.plan ≡ some p
    → p.limits ≡ some limits
    → lookup "api_keys" limits ≡ some none
    → 20 ≤ length page.keys
    → at_limit page ≡ true
unfolding at_limit
at_limit_unlimited page s p limits h₁ h₂ h₃ h₄ h = rw h₁ (rw h₂ (rw h₃ (rw h₄ (ground arith))))
