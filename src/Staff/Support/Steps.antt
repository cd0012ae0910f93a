-- ===== src/Staff/Support/Steps.antt =====
-- What may happen on the support page. A patient user selects a tenant only while no call is under
-- way. The server answers a call for the notes of a tenant with notes of that tenant.
use the_eye.Base.{Bool, true, Option, List, [], ◌∷◌, ◌++◌, String, ◌≡◌, All}
use the_eye.Http.{Fetched, Outcome, value, outcome}
use the_eye.Staff.Api.Tenants.{TenantStats, StaffNote}
use the_eye.Staff.Support.{
  World, Flight, reading, adding, erasing, select_tenant, handle_post, handle_delete, notes_came,
  note_added, note_erased, land,
}

abbrev pub IsOf : String → StaffNote → Type 0
IsOf id n = n.tenant_id ≡ id

-- The notes of an answer, and the note of one, are the tenant's.
abbrev pub AreNotesOf : String → Outcome (List StaffNote) → Type 0
AreNotesOf id (value ns) = All (IsOf id) ns
AreNotesOf id _ = Unit

abbrev pub IsNoteOf : String → Outcome StaffNote → Type 0
IsNoteOf id (value n) = IsOf id n
IsNoteOf id _ = Unit

pub data Step (env : Option String) (patient : Bool) : World → World → Type 0 where
  selected :
      (w : World) (t : TenantStats)
      → (patient ≡ true → w.flights ≡ [])
      → Step env patient w (select_tenant env t w)
  posted : (w : World) → Step env patient w (handle_post env w)
  deleted : (w : World) (id : String) → Step env patient w (handle_delete env id w)
  typed :
      (w : World) (s : String)
      → Step env patient w (record w { page = record w.page { new_note = s } })
  notes_answered :
      (w : World) (id : String) (before after : List Flight) (reply : Fetched (List StaffNote))
      → w.flights ≡ before ++ reading id ∷ after
      → AreNotesOf id (outcome reply)
      → Step env patient w (land notes_came reply (before ++ after) w)
  note_answered :
      (w : World) (id : String) (before after : List Flight) (reply : Fetched StaffNote)
      → w.flights ≡ before ++ adding id ∷ after
      → IsNoteOf id (outcome reply)
      → Step env patient w (land note_added reply (before ++ after) w)
  deletion_answered :
      (w : World) (id note_id : String) (before after : List Flight) (reply : Fetched (Unit {0}))
      → w.flights ≡ before ++ erasing id note_id ∷ after
      → Step env patient w (land (note_erased note_id) reply (before ++ after) w)

pub data Reach (env : Option String) (patient : Bool) (w : World) : World → Type 0 where
  here : Reach env patient w w
  next : {u v : World} → Reach env patient w u → Step env patient u v → Reach env patient w v
