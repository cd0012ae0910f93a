-- ===== src/Staff/Plans/Laws.antt =====
-- The list of the plans is a dictionary by the plans' ids, and a saved plan is written into it.
use the_eye.Base.{
  true, false, Option, none, some, [], ◌∷◌, String, ◌==◌, ◌≡◌, refl, map, if◌then◌else◌,
}
use the_eye.Base.Keyed.{
  find_id, distinct_ids, distinct_ids-upsert, find_id-upsert, ids-replace_id, replace_id,
}
use the_eye.Json.{bool}
use the_eye.Browser.{Browser}
use the_eye.Http.{Fetched, value, outcome}
use the_eye.Staff.Api.Plans.{StaffPlan, update_plan}
use the_eye.Staff.Api.Call.{plans, staff_asked}
use the_eye.Staff.Page.Laws.{staff_take_of_value}
use the_eye.Staff.Plans.{PlansPage, closed, plan_id, handle_saved, handle_archive}

-- What the page shows for an id.
abbrev pub plan_at : String → PlansPage → Option StaffPlan
plan_at id page = find_id plan_id id page.listed

-- A saved plan is what the page then shows for its id, whatever was shown for every other id stays,
-- and the dialog is closed; where no two plans of the page have one id, no two have one after it.
pub handle_saved_lem :
    (saved : StaffPlan) (page : PlansPage) (id : String)
    → distinct_ids plan_id page.listed ≡ true
    → (plan_at id (handle_saved saved page)
        ≡ (if saved.id == id then some saved else plan_at id page))
      × (distinct_ids plan_id (handle_saved saved page).listed ≡ true)
      × ((handle_saved saved page).modal ≡ closed)
unfolding handle_saved
handle_saved_lem saved page id h = (
  find_id-upsert plan_id id saved page.listed,
  distinct_ids-upsert plan_id saved page.listed h,
  refl,
)

module _ (env : Option String) (plan : StaffPlan) (reply : Fetched StaffPlan) (page : PlansPage)
    (b : Browser) where
  -- If the server accepts that a plan is archived, it was asked to make the plan inactive and for
  -- nothing else, the plan that it returns takes the place of those with its id, plans of the same
  -- ids are listed in the same order, and no archiving runs any more.
  pub handle_archive_lem :
      {updated : StaffPlan}
      → outcome reply ≡ value updated
      → ((handle_archive env plan true reply page b).0.listed
          ≡ replace_id plan_id updated page.listed)
        × (map plan_id (handle_archive env plan true reply page b).0.listed
            ≡ map plan_id page.listed)
        × ((handle_archive env plan true reply page b).0.archiving ≡ none)
        × ((handle_archive env plan true reply page b).1
            ≡ staff_asked env (plans (update_plan plan.id (("is_active", bool false) ∷ []))) b)
  unfolding handle_archive
  handle_archive_lem {updated} e =
      rw
        (staff_take_of_value env (plans (update_plan plan.id (("is_active", bool false) ∷ [])))
          reply (record page { archiving = some plan.id }) b _ e)
        (refl, ids-replace_id plan_id updated page.listed, refl, refl)
