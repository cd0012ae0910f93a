-- ===== src/Staff/Admins.antt =====
-- The team of the staff (staff-portal/src/app/staff-admins/page.tsx).
pub mod Laws
use the_eye.Base.{
  ℕ, zero, suc, ◌+◌, Bool, true, false, not, ◌||◌, Option, none, some, List, [], ◌∷◌, ◌++◌, String,
  ◌==◌, ltb, leb, if◌then◌else◌,
}
use the_eye.Base.Keyed.{replace_id, remove_id}
use the_eye.Text.{text_length, trim}
use the_eye.Browser.{Browser}
use the_eye.Http.{Fetched, api_message}
use the_eye.Staff.Api.Access.{
  StaffAdmin, AccessCall, list_staff_admins, create_staff_admin, suspend_staff_admin,
  activate_staff_admin, delete_staff_admin,
}
use the_eye.Staff.Api.Call.{access}
use the_eye.Staff.Page.{staff_load, staff_take, staff_attempt}
use the_eye.Settings.Strength.{any_char, is_upper, is_digit}

pub record AdminsPage : Type 0 where
  pub listed : List StaffAdmin
  pub error : Option String
  pub acting : Option String
  pub show_modal : Bool
  pub confirm_delete : Option StaffAdmin
  pub new_username : String
  pub new_password : String
  pub creating : Bool
  pub create_error : String

abbrev pub admin_id : StaffAdmin → String
admin_id a = a.id

abbrev pub admin_call : StaffAdmin → AccessCall
admin_call a = if a.is_active then suspend_staff_admin a.id else activate_staff_admin a.id

module _ (env : Option String) where
  unfoldable pub load_admins :
      Fetched (List StaffAdmin) → AdminsPage → Browser → AdminsPage × Browser
  load_admins =
      staff_load env (access list_staff_admins) (λ xs p. record p { listed = xs })
        λ f p. record p { error = some (api_message "Failed to load" f) }

  unfoldable pub toggle_admin :
      StaffAdmin → Fetched StaffAdmin → AdminsPage → Browser → AdminsPage × Browser
  toggle_admin a reply page =
      staff_take env (access (admin_call a))
        (record {
          taken = λ updated p. record p { listed = replace_id admin_id updated p.listed };
          failed = λ f p. record p { error = some (api_message "Action failed" f) };
          finally = λ p. record p { acting = none };
        })
        reply (record page { acting = some a.id })

  unfoldable pub delete_admin :
      StaffAdmin → Fetched (Unit {0}) → AdminsPage → Browser → AdminsPage × Browser
  delete_admin a reply page =
      staff_attempt env (access (delete_staff_admin a.id))
        (record {
          done = λ p. record p { listed = remove_id admin_id a.id p.listed };
          failed = λ f p. record p { error = some (api_message "Delete failed" f) };
          finally = λ p. record p { acting = none; confirm_delete = none };
        })
        reply (record page { acting = some a.id })

  create_now : Fetched StaffAdmin → AdminsPage → Browser → AdminsPage × Browser
  create_now reply page =
      staff_take env (access (create_staff_admin (trim page.new_username) page.new_password))
        (record {
          taken = λ a p. record p {
            listed = p.listed ++ a ∷ [];
            show_modal = false;
            new_username = "";
            new_password = "";
          };
          failed = λ f p. record p { create_error = api_message "Failed to create" f };
          finally = λ p. record p { creating = false };
        })
        reply (record page { create_error = ""; creating = true })

  unfoldable pub create_admin : Fetched StaffAdmin → AdminsPage → Browser → AdminsPage × Browser
  unfolding create_now
  create_admin reply page b =
      if trim page.new_username == "" || page.new_password == ""
      then (record page { create_error = "Username and password are required" }, b)
      else if ltb (text_length page.new_password) 12
      then (record page { create_error = "Password must be at least 12 characters" }, b)
      else create_now reply page b

abbrev point : Bool → ℕ
point b = if b then 1 else 0

-- PasswordStrength: how many of the three criteria are met, and the label.
unfoldable pub admin_score : String → ℕ
admin_score pw =
    point (leb 12 (text_length pw)) + point (any_char is_upper pw) + point (any_char is_digit pw)

unfoldable pub admin_label : String → String
unfolding admin_score
admin_label pw = elim (admin_score pw) [
  | zero ↦ ""
  | suc m ↦ if leb m 0 then "Weak" else if leb m 1 then "Fair" else "Strong"
]
