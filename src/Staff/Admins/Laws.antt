-- ===== src/Staff/Admins/Laws.antt =====
-- When a staff admin is made, and removing one.
use the_eye.Base.{
  true, ◌||◌, Option, none, some, String, ◌≡◌, ◌⊎◌, inl, inr, refl, ◌==◌, ltb, Bool-cases,
  if◌then◌else◌,
}
use the_eye.Base.Keyed.{find_id, find_id-remove_id}
use the_eye.Text.{text_length, trim}
use the_eye.Browser.{Browser}
use the_eye.Http.{Fetched, value, outcome}
use the_eye.Staff.Api.Access.{StaffAdmin, delete_staff_admin}
use the_eye.Staff.Api.Call.{access, staff_asked}
use the_eye.Staff.Page.Laws.{staff_attempt_of_value}
use the_eye.Staff.Admins.{AdminsPage, admin_id, create_admin, delete_admin}

module _ (env : Option String) (page : AdminsPage) (b : Browser) where
  -- A staff admin without a name that is more than white space, or with a password of fewer than
  -- twelve code units, is not asked for: nothing is sent, no admin is added, and an error is shown.
  create_admin_refused :
      (reply : Fetched StaffAdmin)
      → (trim page.new_username ≡ "") ⊎ (ltb (text_length page.new_password) 12 ≡ true)
      → ((create_admin env reply page b).1 ≡ b)
        × ((create_admin env reply page b).0.listed ≡ page.listed)
        × (((create_admin env reply page b).0.create_error ≡ "Username and password are required")
            ⊎ ((create_admin env reply page b).0.create_error
                ≡ "Password must be at least 12 characters"))
  unfolding create_admin
  create_admin_refused reply (inl e) = rw e (refl, refl, inl refl)
  create_admin_refused reply (inr e) =
      elim (Bool-cases (trim page.new_username == "" || page.new_password == "")) [
        | inl c ↦ rw c (refl, refl, inl refl)
        | inr c ↦ rw c (rw e (refl, refl, inr refl))
      ]

  -- Once the server has deleted a staff admin, no admin of that id is listed, every other id has the
  -- admin that it had, and no question about a deletion is open.
  delete_admin_accepted :
      (a : StaffAdmin) (reply : Fetched (Unit {0})) (id : String)
      → outcome reply ≡ value tt
      → (find_id admin_id id (delete_admin env a reply page b).0.listed
          ≡ (if a.id == id then none else find_id admin_id id page.listed))
        × ((delete_admin env a reply page b).0.confirm_delete ≡ none)
        × ((delete_admin env a reply page b).1
            ≡ staff_asked env (access (delete_staff_admin a.id)) b)
  unfolding delete_admin
  delete_admin_accepted a reply id e =
      rw
        (staff_attempt_of_value env (access (delete_staff_admin a.id)) reply
          (record page { acting = some a.id }) b _ e)
        (find_id-remove_id admin_id a.id id page.listed, refl, refl)
