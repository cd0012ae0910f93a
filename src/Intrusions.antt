-- ===== src/Intrusions.antt =====
-- The intrusion attempts: the level of the threat and the attempts shown
-- (frontend/src/app/intrusion-detection/page.tsx), and the dots of the map
-- (frontend/src/components/IntrusionMap.tsx).
pub mod Laws
use the_eye.Base.{
  take, ℕ, zero, suc, ◌+◌, Bool, true, false, not, ◌&&◌, Option, none, some, is_some, List, [], ◌∷◌,
  ◌++◌, map, String, ◌==◌, eqb, ltb, filter, length, or_else, if◌then◌else◌,
}
use the_eye.Base.Dict.{Dict, lookup, insert}
use the_eye.Browser.{Browser}
use the_eye.Http.{Fetched, api_message}
use the_eye.Api.Oversight.{IntrusionAttempt, get_intrusion_stats}
use the_eye.Api.Call.{oversight}
use the_eye.Page.{attempt_set}

pub data ThreatLevel : Type 0 where
  clear low medium high critical : ThreatLevel

unfoldable pub threat_level : ℕ → ThreatLevel
threat_level total =
    if eqb total 0
    then clear
    else if ltb total 10
    then low
    else if ltb total 50
    then medium
    else if ltb total 100
    then high
    else critical

-- Coordinates are floating-point numbers, of a type F that is left open. A dot is where it is drawn,
-- how many attempts it stands for, and the attempts.
pub record Cluster (F : Type 0) : Type 0 where
  pub lat : F
  pub lon : F
  pub count : ℕ
  pub attempts : List (IntrusionAttempt F)

pub record CountryCount : Type 0 where
  pub country : String
  pub count : ℕ

pub record TopIp : Type 0 where
  pub ip : String
  pub count : ℕ
  pub country : String
  pub city : Option String

pub record IntrusionStats (F : Type 0) : Type 0 where
  pub total_attempts : ℕ
  pub unique_ips : ℕ
  pub countries : List CountryCount
  pub top_ips : List TopIp
  pub attempts : List (IntrusionAttempt F)

pub record IntrusionPage (F : Type 0) : Type 0 where
  pub stats : Option (IntrusionStats F)
  pub error : Option String
  pub loading : Bool
  pub show_all : Bool

-- The key of a dot is the pair of the rounded coordinates as a text.
module _ {F : Type 0} where
  unfoldable pub visible_attempts : Bool → Option (IntrusionStats F) → List (IntrusionAttempt F)
  visible_attempts show_all none = []
  visible_attempts show_all (some s) = if show_all then s.attempts else take 50 s.attempts

  -- A further attempt at a place, which makes a dot of its own where there is none.
  unfoldable pub grow : F → F → IntrusionAttempt F → Option (Cluster F) → Cluster F
  grow lat lon a none = record { lat = lat; lon = lon; count = 1; attempts = a ∷ [] }
  grow lat lon a (some c) = record c { count = suc c.count; attempts = c.attempts ++ a ∷ [] }

  module _ (key : F → F → String) where
    -- An attempt that is not located is left aside.
    unfoldable pub add_at :
        Option F → Option F → IntrusionAttempt F → Dict (Cluster F) → Dict (Cluster F)
    unfolding grow
    add_at (some lat) (some lon) a dots =
        insert (key lat lon) (grow lat lon a (lookup (key lat lon) dots)) dots
    add_at _ _ a dots = dots

    -- The loop over the attempts, from the dots so far.
    unfoldable pub add_all : List (IntrusionAttempt F) → Dict (Cluster F) → Dict (Cluster F)
    unfolding add_at
    add_all [] dots = dots
    add_all (a ∷ rest) dots = add_all rest (add_at a.latitude a.longitude a dots)

    unfoldable pub clusters : List (IntrusionAttempt F) → Dict (Cluster F)
    unfolding add_all
    clusters attempts = add_all attempts []

-- The level shown, which is that of no attempt until the statistics have come.
unfoldable pub threat_of : {F : Type 0} → Option (IntrusionStats F) → ThreatLevel
unfolding threat_level
threat_of none = threat_level 0
threat_of (some s) = threat_level s.total_attempts

unfoldable pub load_intrusions :
    {F : Type 0}
    → Option String
    → Fetched (IntrusionStats F)
    → IntrusionPage F
    → Browser
    → IntrusionPage F × Browser
load_intrusions env reply page =
    attempt_set env (oversight get_intrusion_stats)
      (record {
        put = λ s p. record p { stats = s };
        failed = λ f p. record p { error = some (api_message "Failed to load" f) };
        finally = λ p. record p { loading = false };
      })
      reply (record page { loading = true })
