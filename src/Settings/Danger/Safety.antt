-- ===== src/Settings/Danger/Safety.antt =====
-- Whatever happens in the danger zone, no unguarded request for the deletion of the account is sent.
use the_eye.Base.{
  Bool, true, false, not, Option, List, [], ◌∷◌, String, ◌≡◌, ◌≢◌, refl, arith, inl, inr, ◌==◌,
  eq_iff, Bool-cases,
}
use the_eye.Browser.{Browser, Wire, send}
use the_eye.Client.{expel, react}
use the_eye.Http.{Fetched, Outcome, value, no_content, raised, outcome, wire, or_text}
use the_eye.Session.{clear_session}
use the_eye.Browser.{navigate, remove_item}
use the_eye.Api.Account.{TenantProfile, request_account_deletion, cancel_account_deletion}
use the_eye.Api.Call.{account, endpoint}
use the_eye.Page.{settle}
use the_eye.Settings.Danger.{
  confirm_step, pending, Zone, World, Ask, deletion, cancellation, initial_zone, sync,
  begin_deletion, continue_deletion, cancel_password, cancel_confirm, submit_request,
  cancel_request, land, answered_zone, default_reason, handlers_of,
}
use the_eye.Settings.Danger.Steps.{
  Step, profile_came, begun, password_typed, reason_typed, continued, left_password, confirm_typed,
  left_confirm, submitted, cancelled, answered, mounted, Reach, here, next,
}

-- The requests sent since the zone was mounted, each made properly: one for the deletion has a
-- password and a reason.
pub data IsProper (env : Option String) (old : List Wire) : List Wire → Type 0 where
  nothing : IsProper env old old
  asks_deletion :
      (password reason : String) {ws : List Wire}
      → password ≢ ""
      → reason ≢ ""
      → IsProper env old ws
      → IsProper env old
          (wire env (endpoint (account (request_account_deletion password reason))) ∷ ws)
  asks_cancellation :
      {ws : List Wire}
      → IsProper env old ws
      → IsProper env old (wire env (endpoint (account cancel_account_deletion)) ∷ ws)

-- One call at most is under way, and the zone is busy just while it is.
abbrev pub is_counted : List Ask → Bool → Bool
is_counted [] busy = not busy
is_counted (a ∷ []) busy = busy
is_counted (a ∷ c ∷ rest) busy = false

abbrev HasPassword : Zone → Type 0
HasPassword z = z.step ≡ confirm_step → z.password ≢ ""

pub record IsGuarded (env : Option String) (old : List Wire) (w : World) : Type 0 where
  pub has_password : HasPassword w.zone
  pub counted : is_counted w.flights w.zone.busy ≡ true
  pub proper : IsProper env old w.browser.sent

or_text_ne : (s d : String) → d ≢ "" → or_text s d ≢ ""
or_text_ne s d h e = elim (Bool-cases (s == "")) [
  | inl t ↦ h (rw t at e)
  | inr f ↦ ground (arith, eq_iff s "", rw f at e)
]

default_reason_ne : default_reason ≢ ""
default_reason_ne e = ground (arith, eq_iff default_reason "")

none_under_way :
    (flights : List Ask) (busy : Bool)
    → busy ≡ false
    → is_counted flights busy ≡ true
    → flights ≡ []
none_under_way [] busy e h = refl
none_under_way (a ∷ []) busy e h = ground arith
none_under_way (a ∷ c ∷ rest) busy e h = ground arith

react_sent : (reply : Fetched (Unit {0})) (b : Browser) → (react reply b).sent ≡ b.sent
unfolding expel clear_session navigate remove_item
react_sent reply b = ground arith

settled_busy :
    (a : Ask) (o : Outcome (Unit {0})) (z : Zone) → (settle (handlers_of a) o z).busy ≡ false
settled_busy deletion (value v) z = refl
settled_busy deletion no_content z = refl
settled_busy deletion (raised f) z = refl
settled_busy cancellation (value v) z = refl
settled_busy cancellation no_content z = refl
settled_busy cancellation (raised f) z = refl

settled-HasPassword :
    (a : Ask) (o : Outcome (Unit {0})) (z : Zone)
    → HasPassword z
    → HasPassword (settle (handlers_of a) o z)
settled-HasPassword deletion (value v) z h = λ e. ground arith
settled-HasPassword deletion no_content z h = λ e. ground arith
settled-HasPassword deletion (raised f) z h = h
settled-HasPassword cancellation (value v) z h = λ e. ground arith
settled-HasPassword cancellation no_content z h = λ e. ground arith
settled-HasPassword cancellation (raised f) z h = h

one_under_way :
    (a : Ask) (rest : List Ask) (busy : Bool) → is_counted (a ∷ rest) busy ≡ true → rest ≡ []
one_under_way a [] busy h = refl
one_under_way a (c ∷ rest) busy h = ground arith

module _ (env : Option String) (old : List Wire) where
  synced-IsGuarded :
      (w : World) (p : Option TenantProfile)
      → IsGuarded env old w
      → IsGuarded env old (record w { zone = sync p w.zone })
  unfolding sync
  synced-IsGuarded w p h = record {
    has_password = λ e. ground (arith, h.has_password);
    counted = ground (arith, h.counted);
    proper = h.proper;
  }

  continued-IsGuarded :
      (w : World)
      → IsGuarded env old w
      → IsGuarded env old (record w { zone = continue_deletion w.zone })
  unfolding continue_deletion
  continued-IsGuarded w h = record {
    has_password = λ e. ground (arith, h.has_password, eq_iff w.zone.password "");
    counted = ground (arith, h.counted);
    proper = h.proper;
  }

  submitted-IsGuarded :
      (w : World)
      → w.zone.step ≡ confirm_step
      → w.zone.busy ≡ false
      → IsGuarded env old w
      → IsGuarded env old (submit_request env w)
  unfolding submit_request send
  submitted-IsGuarded w shown idle_now h = elim (Bool-cases (w.zone.confirm_text == "DELETE")) [
    | inl e ↦ rw e record {
      has_password = h.has_password;
      counted = rw (none_under_way w.flights w.zone.busy idle_now h.counted) refl;
      proper =
          asks_deletion w.zone.password (or_text w.zone.reason default_reason)
            (h.has_password shown) (or_text_ne w.zone.reason default_reason default_reason_ne)
            h.proper;
    }
    | inr e ↦ rw e h
  ]

  cancelled-IsGuarded :
      (w : World)
      → w.zone.step ≡ pending
      → w.zone.busy ≡ false
      → IsGuarded env old w
      → IsGuarded env old (cancel_request env w)
  unfolding cancel_request send
  cancelled-IsGuarded w shown idle_now h = record {
    has_password = h.has_password;
    counted = rw (none_under_way w.flights w.zone.busy idle_now h.counted) refl;
    proper = asks_cancellation h.proper;
  }

  landed-IsGuarded :
      (w : World) (a : Ask) (rest : List Ask) (reply : Fetched (Unit {0}))
      → w.flights ≡ a ∷ rest
      → IsGuarded env old w
      → IsGuarded env old (land a rest reply w)
  unfolding land answered_zone
  landed-IsGuarded w a rest reply e h = record {
    has_password = settled-HasPassword a (outcome reply) w.zone h.has_password;
    counted =
        rw (settled_busy a (outcome reply) w.zone)
          (rw (one_under_way a rest w.zone.busy (rw e at h.counted)) refl);
    proper = rw (react_sent reply w.browser) h.proper;
  }

  kept-IsGuarded :
      (w : World) (f : Zone → Zone)
      → HasPassword (f w.zone)
      → (f w.zone).busy ≡ w.zone.busy
      → IsGuarded env old w
      → IsGuarded env old (record w { zone = f w.zone })
  kept-IsGuarded w f p e h = record {
    has_password = p;
    counted = rw e h.counted;
    proper = h.proper;
  }

  Step-IsGuarded :
      (upper : String → String) {v w : World}
      → Step env upper v w
      → IsGuarded env old v
      → IsGuarded env old w
  unfolding begin_deletion cancel_password cancel_confirm
  Step-IsGuarded upper (profile_came w p) h = synced-IsGuarded w p h
  Step-IsGuarded upper (begun w s) h = kept-IsGuarded w begin_deletion (λ e. ground arith) refl h
  Step-IsGuarded upper (password_typed w t s) h =
      kept-IsGuarded w (λ z. record z { password = t }) (λ e. ground (arith, s, e)) refl h
  Step-IsGuarded upper (reason_typed w t s) h =
      kept-IsGuarded w (λ z. record z { reason = t }) h.has_password refl h
  Step-IsGuarded upper (continued w s) h = continued-IsGuarded w h
  Step-IsGuarded upper (left_password w s) h =
      kept-IsGuarded w cancel_password (λ e. ground arith) refl h
  Step-IsGuarded upper (confirm_typed w t s) h =
      kept-IsGuarded w (λ z. record z { confirm_text = upper t }) h.has_password refl h
  Step-IsGuarded upper (left_confirm w s) h =
      kept-IsGuarded w cancel_confirm (λ e. ground arith) refl h
  Step-IsGuarded upper (submitted w s n) h = submitted-IsGuarded w s n h
  Step-IsGuarded upper (cancelled w s n) h = cancelled-IsGuarded w s n h
  Step-IsGuarded upper (answered w a rest reply e) h = landed-IsGuarded w a rest reply e h

module _ (env : Option String) (upper : String → String) where
  Reach-IsGuarded :
      (old : List Wire) {v w : World}
      → Reach env upper v w
      → IsGuarded env old v
      → IsGuarded env old w
  Reach-IsGuarded old here h = h
  Reach-IsGuarded old (next r s) h = Step-IsGuarded env old upper s (Reach-IsGuarded old r h)

  -- Whatever the profile, the clicks, the typing and the answers, in any order: one call of the danger
  -- zone at most is under way, the last step of the dialog is shown only with a password, and of
  -- the requests sent since the zone was mounted each is a cancellation, or a request for the
  -- deletion with a password and a reason that are not empty.
  pub mounted-IsGuarded :
      (profile : Option TenantProfile) (b : Browser) {w : World}
      → Reach env upper (mounted profile b) w
      → IsGuarded env b.sent w
  unfolding initial_zone
  mounted-IsGuarded profile b r =
      Reach-IsGuarded b.sent r
        (record { has_password = λ e. ground arith; counted = refl; proper = nothing })
