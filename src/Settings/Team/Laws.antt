-- ===== src/Settings/Team/Laws.antt =====
-- What the team's panel does with errors, and which password it sends.
use the_eye.Base.{false, Option, none, some, List, String, ◌≡◌, refl, ◌==◌}
use the_eye.Browser.{Browser}
use the_eye.Client.{react}
use the_eye.Http.{Fetched, value, raised, Failure, outcome}
use the_eye.Api.Users.{UserRead, list_users, deactivate_user, reset_user_password}
use the_eye.Api.Call.{user, asked}
use the_eye.Api.Call.Laws.{perform_of_value, perform_of_outcome}
use the_eye.Page.{attempt_and_load}
use the_eye.Page.Laws.{attempt_of_value, load_of_value}
use the_eye.Settings.Team.{TeamPanel, load_team, remove_member, reset_member}

module _ (env : Option String) (id : String) (reply : Fetched UserRead) (panel : TeamPanel)
    (b : Browser) where
  -- Where the server refuses to remove a member, the panel shows nothing of it: it is as it was but
  -- that no removal runs, and the list is not loaded again.
  remove_member_failed :
      (list : Fetched (List UserRead)) {f : Failure}
      → outcome reply ≡ raised f
      → remove_member env id reply list panel b ≡ (
        record panel { deactivating = none },
        react reply (asked env (user (deactivate_user id)) b),
      )
  unfolding remove_member attempt_and_load
  remove_member_failed list e =
      rw (perform_of_outcome env (user (deactivate_user id)) reply b e) refl

  -- Where the server removes a member and then lists the team, the panel shows that list, and the
  -- two requests have left in that order.
  pub remove_member_accepted :
      (list : Fetched (List UserRead)) {u : UserRead} {us : List UserRead}
      → outcome reply ≡ value u
      → outcome list ≡ value us
      → remove_member env id reply list panel b ≡ (
        record panel { deactivating = none; users = us },
        asked env (user list_users) (asked env (user (deactivate_user id)) b),
      )
  unfolding remove_member attempt_and_load load_team
  remove_member_accepted list e k =
      rw (perform_of_value env (user (deactivate_user id)) reply b e) (
        rw
          (load_of_value env (user list_users) list (record panel { deactivating = some id })
            (asked env (user (deactivate_user id)) b) _ _ k)
          refl)

  -- A new password that is not empty is sent, however short it is, and if the server accepts it the
  -- field is closed and emptied.
  pub reset_member_accepted :
      {u : UserRead}
      → (panel.new_pw == "") ≡ false
      → outcome reply ≡ value u
      → reset_member env id reply panel b ≡ (
        record panel { reset_target = none; new_pw = ""; resetting_pw = none },
        asked env (user (reset_user_password id panel.new_pw)) b,
      )
  unfolding reset_member
  reset_member_accepted filled e = rw filled (
      attempt_of_value env (user (reset_user_password id panel.new_pw)) reply
        (record panel { resetting_pw = some id }) b _ e)
