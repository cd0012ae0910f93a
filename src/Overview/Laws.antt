-- ===== src/Overview/Laws.antt =====
-- The overview shows all four answers or none of them.
use the_eye.Base.{
  ◌∙◌, false, Bool, true, false, Option, none, some, List, [], ◌∷◌, String, ◌≡◌, ◌⊎◌, inl, inr,
  refl, arith, take, is_some, ◌||◌,
}
use the_eye.Browser.{Browser}
use the_eye.Http.{Fetched, Outcome, value, Failure, outcome, any_message}
use the_eye.Api.Events.{EventRead}
use the_eye.Api.Monitor.{OverviewStats, AlertRead, ActorRiskScore}
use the_eye.Api.Call.{perform}
use the_eye.Client.{request}
use the_eye.Overview.{
  OverviewPage, Answers, open_alerts, failure_of, or_next, failures, settle_overview, all_came,
  call_all, load_overview,
}

abbrev is_raised {ℓ} : {T : Type ℓ} → Outcome T → Bool
is_raised o = is_some (failure_of o)

-- The answers that the four replies give.
abbrev pub answers_of :
    Fetched OverviewStats
    → Fetched (List EventRead)
    → Fetched (List AlertRead)
    → Fetched (List ActorRiskScore)
    → Answers
answers_of stats events alerts scores = record {
  stats_answer = outcome stats;
  events_answer = outcome events;
  alerts_answer = outcome alerts;
  scores_answer = outcome scores;
}

-- One call or more failed.
abbrev some_failed : Answers → Bool
some_failed a =
    is_raised a.stats_answer
    || is_raised a.events_answer
    || is_raised a.alerts_answer
    || is_raised a.scores_answer

failures_cases :
    (a : Answers)
    → ((some_failed a ≡ false) × (failures a ≡ []))
      ⊎ ((some_failed a ≡ true) × ((f : Failure) × (fs : List Failure) × (failures a ≡ f ∷ fs)))
unfolding failures
failures_cases a =
    cases (failure_of a.stats_answer) (failure_of a.events_answer) (failure_of a.alerts_answer)
      (failure_of a.scores_answer)
  where
    cases :
        (s e l r : Option Failure)
        → (((is_some s || is_some e || is_some l || is_some r) ≡ false)
            × (or_next s (or_next e (or_next l (or_next r []))) ≡ []))
          ⊎ (((is_some s || is_some e || is_some l || is_some r) ≡ true)
              × ((f : Failure) × (fs : List Failure) × (or_next s
                      (or_next e (or_next l (or_next r [])))
                    ≡ f ∷ fs)))
    cases (some f) e l r = inr (refl, (f, _, refl))
    cases none (some f) l r = inr (refl, (f, _, refl))
    cases none none (some f) r = inr (refl, (f, _, refl))
    cases none none none (some f) = inr (refl, (f, _, refl))
    cases none none none none = inl (refl, refl)

module _ (env : Option String) (first : Failure → List Failure → Failure)
    (no_filter no_slice : String) (stats : Fetched OverviewStats)
    (events : Fetched (List EventRead)) (alerts : Fetched (List AlertRead))
    (scores : Fetched (List ActorRiskScore)) (page : OverviewPage) (b : Browser) where
  -- The page after the load.
  abbrev pub loaded : OverviewPage
  loaded = (load_overview env first no_filter no_slice stats events alerts scores page b).0

  loaded_lem :
      loaded
      ≡ settle_overview first no_filter no_slice
          (failures (answers_of stats events alerts scores))
          (answers_of stats events alerts scores)
          (record page { loading = true })
  unfolding load_overview call_all perform request
  loaded_lem = refl

  of_failures :
      {f : Failure} {fs : List Failure}
      → failures (answers_of stats events alerts scores) ≡ f ∷ fs
      → loaded ≡ record page {
        error = some (any_message "Failed to load overview" (first f fs));
        loading = false;
      }
  of_failures h = loaded_lem ∙ rw h refl

  -- If one of the four calls fails, none of the four answers is shown: apart from `loading`, which
  -- is off, and the error, which is the message of the failure that came first (or the page's own
  -- where it has none), the page is what it was.
  pub load_overview_failed :
      some_failed (answers_of stats events alerts scores) ≡ true
      → (f : Failure) × (fs : List Failure) × (failures (answers_of stats events alerts scores)
          ≡ f ∷ fs)
        × (loaded ≡ record page {
          error = some (any_message "Failed to load overview" (first f fs));
          loading = false;
        })
  load_overview_failed h = elim (failures_cases (answers_of stats events alerts scores)) [
    | inl (none_failed, _) ↦ ground (arith, h, none_failed)
    | inr (_, (f, fs, e)) ↦ (f, fs, e, of_failures e)
  ]

  -- If every answer comes with content, all four are shown: the figures, the events, the open alerts
  -- up to eight and the scores up to six; the error is the one there was.
  load_overview_of_values :
      {s : OverviewStats} {es : List EventRead} {al : List AlertRead} {sc : List ActorRiskScore}
      → outcome stats ≡ value s
      → outcome events ≡ value es
      → outcome alerts ≡ value al
      → outcome scores ≡ value sc
      → loaded ≡ record page {
        stats = some s;
        recent = some es;
        alerts = open_alerts al;
        risk_scores = take 6 sc;
        loading = false;
      }
  unfolding failures all_came
  load_overview_of_values hs he ha hr = loaded_lem ∙ rw (hs, he, ha, hr) refl
