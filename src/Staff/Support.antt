-- ===== src/Staff/Support.antt =====
-- The support page, with the notes on each tenant (staff-portal/src/app/support/page.tsx). Its
-- handlers are cut where they wait, so that another tenant may be selected between a request and its
-- answer.
pub mod Steps
pub mod Stale
pub mod Own
use the_eye.Base.{
  Bool, true, false, not, ◌||◌, Option, none, some, List, [], ◌∷◌, String, ◌==◌, filter,
  if◌then◌else◌,
}
use the_eye.Text.{trim, text_includes}
use the_eye.Browser.{Browser}
use the_eye.Http.{Fetched, Outcome, value, no_content, raised, outcome, Failure, api_message}
use the_eye.Page.{Handlers, Taking, settle, take, receive}
use the_eye.Staff.Client.{staff_react}
use the_eye.Staff.Api.Tenants.{
  TenantStats, StaffNote, list_tenants, get_tenant_notes, add_tenant_note, delete_tenant_note,
}
use the_eye.Staff.Api.Call.{tenants, staff_asked}
use the_eye.Staff.Page.{staff_load}

pub record SupportPage : Type 0 where
  pub listed : List TenantStats
  pub selected : Option TenantStats
  pub notes : List StaffNote
  pub note_search : String
  pub new_note : String
  pub posting : Bool
  pub deleting : Option String
  pub error : Option String
  pub note_error : String

-- A call that is not answered yet, with the tenant it was made for.
pub data Flight : Type 0 where
  reading adding : (tenant_id : String) → Flight
  erasing : (tenant_id note_id : String) → Flight

pub record World : Type 0 where
  pub page : SupportPage
  pub browser : Browser
  pub flights : List Flight

module _ (env : Option String) where
  unfoldable pub load_tenants :
      Fetched (List TenantStats) → SupportPage → Browser → SupportPage × Browser
  load_tenants = staff_load env (tenants list_tenants) (λ ts p. record p { listed = ts }) λ f p. p

  unfoldable pub select_tenant : TenantStats → World → World
  select_tenant t w = record w {
    page = record w.page { selected = some t; notes = []; error = none };
    browser = staff_asked env (tenants (get_tenant_notes t.id)) w.browser;
    flights = reading t.id ∷ w.flights;
  }

  post_for : TenantStats → World → World
  post_for t w = record w {
    page = record w.page { note_error = ""; posting = true };
    browser = staff_asked env (tenants (add_tenant_note t.id (trim w.page.new_note))) w.browser;
    flights = adding t.id ∷ w.flights;
  }

  -- `selected` as the handlers test it
  post_selected : Option TenantStats → World → World
  unfolding post_for
  post_selected none w = record w { page = record w.page { note_error = "Note cannot be empty" } }
  post_selected (some t) w =
      if trim w.page.new_note == ""
      then record w { page = record w.page { note_error = "Note cannot be empty" } }
      else post_for t w

  unfoldable pub handle_post : World → World
  unfolding post_selected
  handle_post w = post_selected w.page.selected w

  delete_selected : Option TenantStats → String → World → World
  delete_selected none id w = w
  delete_selected (some t) id w = record w {
    page = record w.page { deleting = some id };
    browser = staff_asked env (tenants (delete_tenant_note t.id id)) w.browser;
    flights = erasing t.id id ∷ w.flights;
  }

  unfoldable pub handle_delete : String → World → World
  unfolding delete_selected
  handle_delete id w = delete_selected w.page.selected id w

-- What the answers do to the page.
unfoldable pub notes_came : Outcome (List StaffNote) → SupportPage → SupportPage
notes_came =
    receive (λ ns p. record p { notes = ns })
      λ f p. record p { error = some (api_message "Failed to load notes" f) }

-- The server answers a new note with the note. An answer without content, where the page would put
-- `undefined` in front of the list, is not modelled: the notes stay here.
unfoldable pub note_added : Outcome StaffNote → SupportPage → SupportPage
note_added = take (record {
  taken = λ n p. record p { notes = n ∷ p.notes; new_note = "" };
  failed = λ f p. record p { note_error = api_message "Failed to post note" f };
  finally = λ p. record p { posting = false };
})

unfoldable pub note_erased : String → Outcome (Unit {0}) → SupportPage → SupportPage
note_erased id = settle (record {
  done = λ p. record p { notes = filter (λ n. not (n.id == id)) p.notes };
  failed = λ f p. record p { error = some (api_message "Delete failed" f) };
  finally = λ p. record p { deleting = none };
})

-- An answer arrives, and the calls that are left.
abbrev pub land {ℓ} :
    {T : Type ℓ} → (Outcome T → SupportPage → SupportPage) → Fetched T → List Flight → World → World
land after reply rest w = record w {
  page = after (outcome reply) w.page;
  browser = staff_react reply w.browser;
  flights = rest;
}

-- The tenants whose name or identifier holds the search text, in lower case by the tables of
-- Unicode.
unfoldable pub filtered_tenants : (String → String) → SupportPage → List TenantStats
filtered_tenants lower p =
    filter
      (λ t.
        text_includes (lower t.name) (lower p.note_search)
        || text_includes (lower t.slug) (lower p.note_search))
      p.listed
