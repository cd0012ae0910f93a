-- ===== src/Staff/AuditLog.antt =====
-- The log of what the staff did (staff-portal/src/app/audit/page.tsx).
pub mod Delay
use the_eye.Base.{
  ℕ, ◌+◌, ◌-◌, ◌/◌, Bool, true, false, Option, none, some, List, String, ◌==◌, ◌⧺◌, ltb,
  if◌then◌else◌,
}
use the_eye.Json.{Json}
use the_eye.Query.Decimal.{decimal}
use the_eye.Browser.{Browser}
use the_eye.Http.{Fetched, Outcome, value, raised, Failure, api_message}
use the_eye.Staff.Api.Notices.{AuditLogParams, get_audit_log, get_audit_log_stats}
use the_eye.Staff.Api.Call.{notices, staff_perform}

pub record AuditLogEntry : Type 0 where
  pub id : String
  pub occurred_at : String
  pub actor_username : String
  pub action : String
  pub target_type : Option String
  pub target_id : Option String
  pub target_name : Option String
  pub reason : Option String
  pub severity : String
  pub details : Option Json

pub record AuditLogStats : Type 0 where
  pub total : ℕ
  pub critical : ℕ
  pub warning : ℕ
  pub info : ℕ
  pub last_24h : ℕ
  pub actions_breakdown : List (String × ℕ)

pub record AuditPage : Type 0 where
  pub logs : List AuditLogEntry
  pub stats : Option AuditLogStats
  pub loading : Bool
  pub error : Option String

-- text || undefined
abbrev given_text : String → Option String
given_text s = if s == "" then none else some s

abbrev pub log_params : String → String → String → AuditLogParams
log_params severity action actor = record {
  limit = some 200;
  offset = none;
  severity = given_text severity;
  action = given_text action;
  actor = given_text actor;
}

abbrev log_failed : Failure → AuditPage → AuditPage
log_failed f page = record page {
  error = some (api_message "Failed to load audit log." f);
  loading = false;
}

-- Promise.all of the two answers: `second_first` says which rejection comes first.
abbrev both_came :
    Bool → Outcome (List AuditLogEntry) → Outcome AuditLogStats → AuditPage → AuditPage
both_came second_first (value es) (value s) page = record page {
  logs = es;
  stats = some s;
  error = none;
  loading = false;
}
both_came second_first (raised f) (raised g) page = log_failed (if second_first then g else f) page
both_came second_first (raised f) _ page = log_failed f page
both_came second_first _ (raised g) page = log_failed g page
both_came second_first _ _ page = record page { loading = false }

unfoldable pub load_log :
    Option String
    → (severity action actor : String) → Bool
    → Fetched (List AuditLogEntry)
    → Fetched AuditLogStats
    → AuditPage
    → Browser
    → AuditPage × Browser
load_log env severity action actor second_first entries_reply stats_reply page b =
    let (entries, b₁) =
      staff_perform env (notices (get_audit_log (log_params severity action actor))) entries_reply
        b in
    let (stats, b₂) = staff_perform env (notices get_audit_log_stats) stats_reply b₁ in
    (both_came second_first entries stats (record page { loading = true }), b₂)

-- Whole seconds since a time; one to come counts in negative seconds.
abbrev seconds_ago : ℕ → ℕ → String
seconds_ago now t =
    if ltb now t then "-" ⧺ decimal ((t - now + 999) / 1000) else decimal ((now - t) / 1000)

unfoldable pub log_time_ago : ℕ → ℕ → String
log_time_ago now t =
    let s = (now - t) / 1000 in
    if ltb s 60
    then seconds_ago now t ⧺ "s ago"
    else if ltb (s / 60) 60
    then decimal (s / 60) ⧺ "m ago"
    else if ltb (s / 60 / 60) 24
    then decimal (s / 60 / 60) ⧺ "h ago"
    else decimal (s / 60 / 60 / 24) ⧺ "d ago"
