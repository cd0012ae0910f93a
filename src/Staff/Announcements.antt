-- ===== src/Staff/Announcements.antt =====
-- The announcements to all clients (staff-portal/src/app/announcements/page.tsx).
use the_eye.Base.{
  Bool, true, false, not, ◌||◌, Option, none, some, List, ◌∷◌, String, ◌==◌, filter, if◌then◌else◌,
}
use the_eye.Base.Keyed.{replace_id, remove_id}
use the_eye.Text.{trim}
use the_eye.Browser.{Browser}
use the_eye.Http.{Fetched, api_message}
use the_eye.Staff.Api.Notices.{
  StaffAnnouncement, list_announcements, toggle_announcement, delete_announcement,
  create_announcement,
}
use the_eye.Staff.Api.Call.{notices}
use the_eye.Staff.Page.{staff_load, staff_take, staff_attempt}

pub record AnnouncementsPage : Type 0 where
  pub listed : List StaffAnnouncement
  pub error : Option String
  pub acting : Option String
  pub show_modal : Bool
  pub title : String
  pub body : String
  pub severity : String
  pub posting : Bool
  pub post_error : String

abbrev pub announcement_id : StaffAnnouncement → String
announcement_id a = a.id

module _ (env : Option String) where
  unfoldable pub load_announcements :
      Fetched (List StaffAnnouncement) → AnnouncementsPage → Browser → AnnouncementsPage × Browser
  load_announcements =
      staff_load env (notices list_announcements) (λ xs p. record p { listed = xs })
        λ f p. record p { error = some (api_message "Failed to load" f) }

  unfoldable pub toggle_one :
      StaffAnnouncement
      → Fetched StaffAnnouncement
      → AnnouncementsPage
      → Browser
      → AnnouncementsPage × Browser
  toggle_one a reply page =
      staff_take env (notices (toggle_announcement a.id (not a.is_active)))
        (record {
          taken = λ updated p. record p { listed = replace_id announcement_id updated p.listed };
          failed = λ f p. record p { error = some (api_message "Failed" f) };
          finally = λ p. record p { acting = none };
        })
        reply (record page { acting = some a.id })

  unfoldable pub delete_one :
      String → Fetched (Unit {0}) → AnnouncementsPage → Browser → AnnouncementsPage × Browser
  delete_one id reply page =
      staff_attempt env (notices (delete_announcement id))
        (record {
          done = λ p. record p { listed = remove_id announcement_id id p.listed };
          failed = λ f p. record p { error = some (api_message "Delete failed" f) };
          finally = λ p. record p { acting = none };
        })
        reply (record page { acting = some id })

  -- `trim` of both texts
  unfoldable pub is_blank : AnnouncementsPage → Bool
  is_blank p = trim p.title == "" || trim p.body == ""

  post_now : Fetched StaffAnnouncement → AnnouncementsPage → Browser → AnnouncementsPage × Browser
  post_now reply page =
      staff_take env
        (notices (create_announcement (trim page.title) (trim page.body) page.severity))
        (record {
          taken = λ a p. record p {
            listed = a ∷ p.listed;
            show_modal = false;
            title = "";
            body = "";
            severity = "info";
          };
          failed = λ f p. record p { post_error = api_message "Failed to post" f };
          finally = λ p. record p { posting = false };
        })
        reply (record page { post_error = ""; posting = true })

  unfoldable pub post_announcement :
      Fetched StaffAnnouncement → AnnouncementsPage → Browser → AnnouncementsPage × Browser
  unfolding post_now is_blank
  post_announcement reply page b =
      if is_blank page
      then (record page { post_error = "Title and body are required" }, b)
      else post_now reply page b

unfoldable pub active_announcements : AnnouncementsPage → List StaffAnnouncement
active_announcements p = filter (λ a. a.is_active) p.listed

unfoldable pub inactive_announcements : AnnouncementsPage → List StaffAnnouncement
inactive_announcements p = filter (λ a. not a.is_active) p.listed
