-- ===== src/Staff/Page.antt =====
-- The handlers of the staff portal's pages, in the shapes of those of the dashboard.
pub mod Laws
use the_eye.Base.{Option, String}
use the_eye.Browser.{Browser}
use the_eye.Http.{Fetched, Failure}
use the_eye.Page.{Handlers, Taking, settle, take, receive}
use the_eye.Staff.Api.Call.{StaffCall, staff_perform}

module _ {P : Type 0} where
  unfoldable pub staff_attempt :
      {T : Type 0} → Option String → StaffCall → Handlers P → Fetched T → P → Browser → P × Browser
  staff_attempt env c h reply page b =
      let (result, after) = staff_perform env c reply b in (settle h result page, after)

  unfoldable pub staff_take :
      {T : Type 0} → Option String → StaffCall → Taking T P → Fetched T → P → Browser → P × Browser
  staff_take env c h reply page b =
      let (result, after) = staff_perform env c reply b in (take h result page, after)

  unfoldable pub staff_load :
      {T : Type 0}
      → Option String
      → StaffCall
      → (T → P → P)
      → (Failure → P → P)
      → Fetched T
      → P
      → Browser
      → P × Browser
  staff_load env c loaded failed reply page b =
      let (result, after) = staff_perform env c reply b in
      (receive loaded failed result page, after)
