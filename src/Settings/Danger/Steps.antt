-- ===== src/Settings/Danger/Steps.antt =====
-- What may happen in the danger zone, in any order: clicks and typing where the element is shown and
-- enabled, the profile arriving, and answers to the calls under way.
use the_eye.Base.{false, Option, List, [], ◌∷◌, String, ◌≡◌, ◌≢◌}
use the_eye.Browser.{Browser}
use the_eye.Http.{Fetched}
use the_eye.Api.Account.{TenantProfile}
use the_eye.Settings.Danger.{
  password_step, confirm_step, pending, Zone, World, Ask, initial_zone, sync, begin_deletion,
  continue_deletion, cancel_password, cancel_confirm, submit_request, cancel_request, land,
}

abbrev pub on_zone : (Zone → Zone) → World → World
on_zone f w = record w { zone = f w.zone }

-- `upper` is JavaScript's toUpperCase.
pub data Step (env : Option String) (upper : String → String) : World → World → Type 0 where
  profile_came : (w : World) (p : Option TenantProfile) → Step env upper w (on_zone (sync p) w)
  begun : (w : World) → w.zone.step ≢ pending → Step env upper w (on_zone begin_deletion w)
  password_typed :
      (w : World) (s : String)
      → w.zone.step ≡ password_step
      → Step env upper w (on_zone (λ z. record z { password = s }) w)
  reason_typed :
      (w : World) (s : String)
      → w.zone.step ≡ password_step
      → Step env upper w (on_zone (λ z. record z { reason = s }) w)
  continued :
      (w : World) → w.zone.step ≡ password_step → Step env upper w (on_zone continue_deletion w)
  left_password :
      (w : World) → w.zone.step ≡ password_step → Step env upper w (on_zone cancel_password w)
  confirm_typed :
      (w : World) (s : String)
      → w.zone.step ≡ confirm_step
      → Step env upper w (on_zone (λ z. record z { confirm_text = upper s }) w)
  left_confirm :
      (w : World) → w.zone.step ≡ confirm_step → Step env upper w (on_zone cancel_confirm w)
  submitted :
      (w : World)
      → w.zone.step ≡ confirm_step
      → w.zone.busy ≡ false
      → Step env upper w (submit_request env w)
  cancelled :
      (w : World)
      → w.zone.step ≡ pending
      → w.zone.busy ≡ false
      → Step env upper w (cancel_request env w)
  answered :
      (w : World) (a : Ask) (rest : List Ask) (reply : Fetched (Unit {0}))
      → w.flights ≡ a ∷ rest
      → Step env upper w (land a rest reply w)

-- The zone as it is mounted, in a given browser.
abbrev pub mounted : Option TenantProfile → Browser → World
mounted profile b = record { zone = initial_zone profile; browser = b; flights = [] }

pub data Reach (env : Option String) (upper : String → String) (w : World) : World → Type 0 where
  here : Reach env upper w w
  next : {u v : World} → Reach env upper w u → Step env upper u v → Reach env upper w v
