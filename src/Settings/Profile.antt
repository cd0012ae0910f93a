-- ===== src/Settings/Profile.antt =====
-- The company's profile (frontend/src/app/settings/page.tsx, CompanyProfileSection).
use the_eye.Base.{Bool, true, false, Option, none, some, List, [], ◌∷◌, String, ◌==◌, if◌then◌else◌}
use the_eye.Json.{Json, null, str, optional}
use the_eye.Browser.{Browser}
use the_eye.Http.{Fetched, api_message}
use the_eye.Api.Account.{TenantProfile, get_tenant_profile, update_tenant_profile}
use the_eye.Api.Call.{account}
use the_eye.Page.{attempt_take}
use the_eye.Settings.Password.{Status}

-- The texts of the partial profile that the section edits; before the profile is there they are
-- `undefined`. The other fields are kept by the section and not read.
pub record Draft : Type 0 where
  pub name : Option String
  pub contact_email : Option String
  pub phone : Option String
  pub website : Option String
  pub country : Option String
  pub industry : Option String
  pub logo_url : Option String
  pub profile_description : Option String

pub data ProfileField : Type 0 where
  name contact_email phone website country industry logo_url profile_description : ProfileField

pub record ProfileForm : Type 0 where
  pub profile : Draft
  pub loading : Bool
  pub saving : Bool
  pub status : Option Status

abbrev pub draft_of : TenantProfile → Draft
draft_of p = record {
  name = some p.name;
  contact_email = p.contact_email;
  phone = p.phone;
  website = p.website;
  country = p.country;
  industry = p.industry;
  logo_url = p.logo_url;
  profile_description = p.profile_description;
}

unfoldable pub set_field : ProfileField → String → Draft → Draft
set_field name s d = record d { name = some s }
set_field contact_email s d = record d { contact_email = some s }
set_field phone s d = record d { phone = some s }
set_field website s d = record d { website = some s }
set_field country s d = record d { country = some s }
set_field industry s d = record d { industry = some s }
set_field logo_url s d = record d { logo_url = some s }
set_field profile_description s d = record d { profile_description = some s }

-- text || null
abbrev pub filled : Option String → Json
filled none = null
filled (some s) = if s == "" then null else str s

abbrev some_text : Option String → Option Json
some_text none = none
some_text (some s) = some (str s)

unfoldable pub changes : Draft → List (String × Json)
changes d = optional "name" (some_text d.name) (
    ("contact_email", filled d.contact_email)
    ∷ ("phone", filled d.phone)
    ∷ ("website", filled d.website)
    ∷ ("country", filled d.country)
    ∷ ("industry", filled d.industry)
    ∷ ("logo_url", filled d.logo_url)
    ∷ ("profile_description", filled d.profile_description)
    ∷ [])

module _ (env : Option String) where
  unfoldable pub load_draft : Fetched TenantProfile → ProfileForm → Browser → ProfileForm × Browser
  load_draft = attempt_take env (account get_tenant_profile) (record {
    taken = λ p f. record f { profile = draft_of p };
    failed = λ e f. f;
    finally = λ f. record f { loading = false };
  })

  unfoldable pub save_profile :
      Fetched TenantProfile → ProfileForm → Browser → ProfileForm × Browser
  unfolding changes
  save_profile reply form =
      attempt_take env (account (update_tenant_profile (changes form.profile)))
        (record {
          taken = λ p f. record f {
            profile = draft_of p;
            status = some (record { text = "Profile saved successfully."; ok = true });
          };
          failed = λ e f. record f {
            status = some (record { text = api_message "Save failed." e; ok = false });
          };
          finally = λ f. record f { saving = false };
        })
        reply (record form { saving = true; status = none })
