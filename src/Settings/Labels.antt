-- ===== src/Settings/Labels.antt =====
-- How the settings page words a time (frontend/src/app/settings/page.tsx, timeAgo).
use the_eye.Base.{
  ℕ, ◌+◌, ◌-◌, ◌*◌, ◌/◌, ◌≤◌, ◌<◌, Option, none, some, String, ◌⧺◌, ◌≡◌, ◌⊎◌, inl, inr, refl, arith,
  ltb, Bool-cases, if◌then◌else◌,
}
use the_eye.Query.Decimal.{decimal}

-- Math.floor((now - then) / 3_600_000); a time to come counts as none.
abbrev hours_since : ℕ → ℕ → ℕ
hours_since now t = (now - t) / 3600000

-- `none` is no time at all; `date` is the date in the page's wording.
unfoldable pub time_ago : String → ℕ → Option ℕ → String
time_ago date now none = "Never"
time_ago date now (some t) =
    let h = hours_since now t in
    if ltb h 1
    then "Just now"
    else if ltb h 24
    then decimal h ⧺ "h ago"
    else if ltb (h / 24) 30
    then decimal (h / 24) ⧺ "d ago"
    else date

-- Hours are told from the first to the 23rd, days from the first to the 29th, and after thirty days
-- the date is told; a time that is less than an hour ago, or still to come, is "Just now".
time_ago_lem :
    (date : String) (now t : ℕ)
    → ((now < t + 3600000) × (time_ago date now (some t) ≡ "Just now"))
      ⊎ ((h : ℕ) × (1 ≤ h) × (h ≤ 23) × (time_ago date now (some t) ≡ decimal h ⧺ "h ago"))
      ⊎ ((d : ℕ) × (1 ≤ d) × (d ≤ 29) × (time_ago date now (some t) ≡ decimal d ⧺ "d ago"))
      ⊎ ((t + 30 * 24 * 3600000 ≤ now) × (time_ago date now (some t) ≡ date))
unfolding time_ago
time_ago_lem date now t =
    let h = (now - t) / 3600000 in
    elim (Bool-cases (ltb h 1)) [
      | inl a ↦ inl (ground (arith, a), rw a refl)
      | inr a ↦ elim (Bool-cases (ltb h 24)) [
        | inl c ↦ inr (inl (h, ground (arith, a), ground (arith, c), rw a (rw c refl)))
        | inr c ↦ elim (Bool-cases (ltb (h / 24) 30)) [
          | inl d ↦
              inr
                (inr (inl (h / 24, ground (arith, c), ground (arith, d), rw a (rw c (rw d refl)))))
          | inr d ↦ inr (inr (inr (ground (arith, d), rw a (rw c (rw d refl)))))
        ]
      ]
    ]
