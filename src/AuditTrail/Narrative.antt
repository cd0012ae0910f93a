-- ===== src/AuditTrail/Narrative.antt =====
-- How the audit trail tells an event (frontend/src/app/audit-trail/page.tsx), and how the page of
-- file activity names it (frontend/src/app/file-activity/page.tsx).
use the_eye.Base.{Option, none, some, List, [], ◌∷◌, String, ◌==◌, or_else, if◌then◌else◌}
use the_eye.Base.Dict.{Dict, lookup}
use the_eye.Json.{Json, null, str, property}
use the_eye.Api.Events.{EventRead}

abbrev pub verbs : Dict String
verbs =
    ("file.created", "created")
    ∷ ("file.deleted", "deleted")
    ∷ ("file.modified", "modified")
    ∷ ("file.renamed", "renamed")
    ∷ ("file.copied_to_usb", "copied to USB →")
    ∷ ("file.accessed", "accessed")
    ∷ ("file.permissions_changed", "changed permissions on")
    ∷ ("usb.connected", "connected USB drive")
    ∷ ("usb.disconnected", "removed USB drive")
    ∷ ("device.connected", "connected device")
    ∷ ("auth.login", "logged in")
    ∷ ("auth.logout", "logged out")
    ∷ ("auth.ntlm", "authenticated (NTLM) on")
    ∷ ("process.execution", "executed process")
    ∷ ("task.created", "created scheduled task")
    ∷ ("task.deleted", "deleted scheduled task")
    ∷ ("task.updated", "updated scheduled task")
    ∷ ("task.enabled", "enabled scheduled task")
    ∷ ("task.disabled", "disabled scheduled task")
    ∷ ("user.created", "created user account")
    ∷ ("user.deleted", "deleted user account")
    ∷ ("group.member_added", "added member to group")
    ∷ ("group.member_removed", "removed member from group")
    ∷ ("privilege.use", "used privilege")
    ∷ ("system.startup", "started machine")
    ∷ ("system.shutdown", "shut down machine")
    ∷ ("service.installed", "installed service")
    ∷ ("powershell.script_block", "executed PowerShell script on")
    ∷ []

-- A value that is neither `undefined` nor `null`.
abbrev pub present : Option Json → Option Json
present none = none
present (some null) = none
present (some v) = some v

-- The first of the properties whose value is there and not `null`.
unfoldable pub first_of : List String → Json → Option Json
unfolding property
first_of [] meta = none
first_of (k ∷ ks) meta = elim (present (property k meta)) [
  | none ↦ first_of ks meta
  | some v ↦ some v
]

-- text ?? fallback, after the properties
abbrev pub or_field : Option Json → Option String → String → Json
or_field (some v) text fallback = v
or_field none text fallback = str (or_else text fallback)

pub record Narrative : Type 0 where
  pub verb : String
  pub target : Json
  pub machine : Json

unfoldable pub narrative : EventRead → Narrative
unfolding first_of lookup
narrative ev = record {
  verb = or_else (lookup ev.event_type verbs) ev.event_type;
  target =
      or_field
        (first_of
          ("file_name" ∷ "task_name" ∷ "process_name" ∷ "device_description" ∷ "volume_label" ∷ [])
          ev.metadata)
        ev.target_id "";
  machine = or_field (first_of ("host" ∷ []) ev.metadata) ev.origin_host "";
}

-- The colours of a severity.
unfoldable pub severity_dot : String → String
severity_dot s =
    if s == "critical"
    then "bg-danger ring-2 ring-danger/30"
    else if s == "high"
    then "bg-warn"
    else if s == "info"
    then "bg-accent"
    else "bg-muted"

unfoldable pub severity_bg : String → String
severity_bg s =
    if s == "critical"
    then "border-danger/40 bg-danger/5"
    else if s == "high"
    then "border-warn/40 bg-warn/5"
    else "border-border bg-panel"

-- The names of the page of file activity.
unfoldable pub file_name : EventRead → Json
unfolding first_of
file_name ev =
    or_field (first_of ("file_name" ∷ "device_description" ∷ []) ev.metadata) ev.target_id "—"

unfoldable pub file_path : EventRead → Json
unfolding first_of
file_path ev = or_field (first_of ("directory" ∷ []) ev.metadata) none "—"

unfoldable pub host_name : EventRead → Json
unfolding first_of
host_name ev = or_field (first_of ("host" ∷ []) ev.metadata) ev.origin_host "—"
