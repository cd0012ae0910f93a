-- ===== src/Settings/Danger/Progress.antt =====
-- The way through the danger zone: a deletion can be asked for, and taken back.
use the_eye.Base.{
  ap, true, false, Option, none, [], String, ◌≡◌, ◌≢◌, refl, arith, inl, inr, ◌==◌, eq_iff,
  Bool-cases,
}
use the_eye.Http.{Fetched, Outcome, value, no_content, raised, outcome, or_text}
use the_eye.Api.Account.{request_account_deletion, cancel_account_deletion}
use the_eye.Api.Call.{account, asked}
use the_eye.Client.{react}
use the_eye.Page.{settle, succeeded}
use the_eye.Settings.Danger.{
  idle, confirm_step, pending, Zone, World, deletion, cancellation, begin_deletion,
  continue_deletion, submit_request, cancel_request, land, answered_zone, default_reason,
  handlers_of,
}
use the_eye.Settings.Danger.Steps.{
  begun, password_typed, continued, confirm_typed, submitted, cancelled, answered, Reach, here,
  next, on_zone,
}

deletion_succeeded :
    (o : Outcome (Unit {0})) (z : Zone)
    → succeeded o ≡ true
    → settle (handlers_of deletion) o z
      ≡ record z { step = pending; password = ""; confirm_text = ""; reason = ""; busy = false }
deletion_succeeded (value v) z h = refl
deletion_succeeded no_content z h = refl
deletion_succeeded (raised f) z h = ground arith

cancellation_succeeded :
    (o : Outcome (Unit {0})) (z : Zone)
    → succeeded o ≡ true
    → settle (handlers_of cancellation) o z ≡ record z { step = idle; busy = false }
cancellation_succeeded (value v) z h = refl
cancellation_succeeded no_content z h = refl
cancellation_succeeded (raised f) z h = ground arith

continued_of_ne :
    (z : Zone)
    → z.password ≢ ""
    → continue_deletion z ≡ record z { step = confirm_step; err = none }
unfolding continue_deletion
continued_of_ne z h = elim (Bool-cases (z.password == "")) [
  | inl e ↦ absurd (h ((eq_iff z.password "").0 e))
  | inr e ↦ rw e refl
]

module _ (env : Option String) (upper : String → String) (w : World) (password : String) where
  abbrev opened : World
  opened = on_zone (λ z. record z { password = password }) (on_zone begin_deletion w)

  abbrev confirming : World
  confirming = on_zone continue_deletion opened

  abbrev typed : String → World
  typed s = on_zone (λ z. record z { confirm_text = upper s }) confirming

  typed_of_ne :
      (s : String)
      → password ≢ ""
      → upper s ≡ "DELETE"
      → typed s ≡ record w {
        zone = record w.zone {
          step = confirm_step;
          password = password;
          err = none;
          confirm_text = "DELETE";
        };
      }
  unfolding begin_deletion
  typed_of_ne s h e = rw e (rw (continued_of_ne opened.zone h) refl)

  abbrev ready : World
  ready = record w {
    zone = record w.zone {
      step = confirm_step;
      password = password;
      err = none;
      confirm_text = "DELETE";
    };
  }

  typed_reachable :
      (s : String) → w.zone.step ≢ pending → password ≢ "" → Reach env upper w (typed s)
  unfolding begin_deletion
  typed_reachable s shown h =
      let first = next here (begun w shown) in
      let second = next first (password_typed (on_zone begin_deletion w) password refl) in
      let third = next second (continued opened refl) in
      next third (confirm_typed confirming s (rw (continued_of_ne opened.zone h) refl))

  ready_reachable :
      (s : String)
      → w.zone.step ≢ pending
      → password ≢ ""
      → upper s ≡ "DELETE"
      → Reach env upper w ready
  ready_reachable s shown h e = rw (typed_of_ne s h e) at (typed_reachable s shown h)

  -- From a danger zone that shows no pending request, with no call of it under way, an admin who
  -- types a password that is not empty, and a text whose upper case is DELETE, reaches the pending
  -- request if the server accepts it: just one request has left, for the deletion, with that
  -- password and the reason or its default, and the password is forgotten.
  pub deletion_reachable :
      (s : String) (reply : Fetched (Unit {0}))
      → w.zone.step ≢ pending
      → w.zone.busy ≡ false
      → w.flights ≡ []
      → password ≢ ""
      → upper s ≡ "DELETE"
      → succeeded (outcome reply) ≡ true
      → (v : World) × Reach env upper w v
        × (v.zone.step ≡ pending)
        × (v.zone.password ≡ "")
        × (v.flights ≡ [])
        × (v.browser
            ≡ react reply (
                asked env
                  (account
                    (request_account_deletion password (or_text w.zone.reason default_reason)))
                  w.browser))
  unfolding submit_request land answered_zone
  deletion_reachable s reply shown free none_left h e accepted = (
    land deletion w.flights reply (submit_request env ready),
    next (next (ready_reachable s shown h e) (submitted ready refl free))
        (answered (submit_request env ready) deletion w.flights reply refl),
    ap (λ z. z.step) (deletion_succeeded (outcome reply) (submit_request env ready).zone accepted),
    ap (λ z. z.password)
        (deletion_succeeded (outcome reply) (submit_request env ready).zone accepted),
    none_left,
    refl,
  )

  -- A pending request is taken back from a danger zone with no call of it under way if the server
  -- accepts the cancellation, which is the one request sent.
  pub cancellation_reachable :
      (reply : Fetched (Unit {0}))
      → w.zone.step ≡ pending
      → w.zone.busy ≡ false
      → w.flights ≡ []
      → succeeded (outcome reply) ≡ true
      → (v : World) × Reach env upper w v
        × (v.zone.step ≡ idle)
        × (v.flights ≡ [])
        × (v.browser ≡ react reply (asked env (account cancel_account_deletion) w.browser))
  unfolding cancel_request land answered_zone
  cancellation_reachable reply shown free none_left accepted = (
    land cancellation w.flights reply (cancel_request env w),
    next (next here (cancelled w shown free))
        (answered (cancel_request env w) cancellation w.flights reply refl),
    ap (λ z. z.step) (cancellation_succeeded (outcome reply) (cancel_request env w).zone accepted),
    none_left,
    refl,
  )
