-- ===== src/Staff/Support/Own.antt =====
-- The notes shown are the selected tenant's, for a user who waits.
use the_eye.Base.{
  true, Option, none, some, List, [], ◌∷◌, ◌++◌, String, ◌≡◌, ◌≢◌, ◌∙◌, sym, refl, inl, inr,
  Bool-cases, arith, All, All-filter, All-middle, ◌==◌, not,
}
use the_eye.Http.{Fetched, Outcome, value, no_content, raised, outcome}
use the_eye.Text.{trim}
use the_eye.Staff.Api.Tenants.{TenantStats, StaffNote}
use the_eye.Staff.Support.{
  World, SupportPage, Flight, reading, adding, erasing, select_tenant, handle_post, handle_delete,
  notes_came, note_added, note_erased, land, post_for, post_selected, delete_selected,
}
use the_eye.Staff.Support.Steps.{
  IsOf, AreNotesOf, IsNoteOf, Step, selected, posted, deleted, typed, notes_answered, note_answered,
  deletion_answered, Reach, here, next,
}

abbrev for_tenant : Flight → String
for_tenant (reading id) = id
for_tenant (adding id) = id
for_tenant (erasing id note_id) = id

-- The notes shown, and the calls under way, are the selected tenant's.
abbrev pub IsOwn : Option TenantStats → List StaffNote → List Flight → Type 0
IsOwn none notes flights = (notes ≡ []) × (flights ≡ [])
IsOwn (some t) notes flights = All (IsOf t.id) notes × All (λ f. for_tenant f ≡ t.id) flights

abbrev pub ShowsOwn : World → Type 0
ShowsOwn w = IsOwn w.page.selected w.page.notes w.flights

no_flight : (f : Flight) (before after : List Flight) → [] ≢ before ++ f ∷ after
no_flight f [] after e = ground (arith, e)
no_flight f (g ∷ before) after e = ground (arith, e)

-- A call that is answered was made for the selected tenant, and those left are.
landed :
    (o : Option TenantStats) (notes : List StaffNote) (flights before after : List Flight)
    (f : Flight)
    → flights ≡ before ++ f ∷ after
    → IsOwn o notes flights
    → (t : TenantStats) × (o ≡ some t)
      × (for_tenant f ≡ t.id)
      × All (IsOf t.id) notes
      × All (λ g. for_tenant g ≡ t.id) (before ++ after)
landed none notes flights before after f e h = absurd (no_flight f before after (sym h.1 ∙ e))
landed (some t) notes flights before after f e h =
    let (mine, rest) = All-middle (λ g. for_tenant g ≡ t.id) before f after (rw e at h.1) in
    (t, refl, mine, h.0, rest)

IsOwn-selected :
    (o : Option TenantStats) (t : TenantStats) (notes : List StaffNote) (flights : List Flight)
    → o ≡ some t
    → All (IsOf t.id) notes
    → All (λ f. for_tenant f ≡ t.id) flights
    → IsOwn o notes flights
IsOwn-selected o t notes flights e h k = rw e (h, k)

module _ (p : SupportPage) (t : TenantStats) where
  notes_came-IsOwn :
      (r : Outcome (List StaffNote))
      → AreNotesOf t.id r
      → All (IsOf t.id) p.notes
      → All (IsOf t.id) (notes_came r p).notes
  unfolding notes_came
  notes_came-IsOwn (value ns) mine h = mine
  notes_came-IsOwn no_content mine h = h
  notes_came-IsOwn (raised f) mine h = h

  note_added-IsOwn :
      (r : Outcome StaffNote)
      → IsNoteOf t.id r
      → All (IsOf t.id) p.notes
      → All (IsOf t.id) (note_added r p).notes
  unfolding note_added
  note_added-IsOwn (value n) mine h = (mine, h)
  note_added-IsOwn no_content mine h = h
  note_added-IsOwn (raised f) mine h = h

  note_erased-IsOwn :
      (id : String) (r : Outcome (Unit {0}))
      → All (IsOf t.id) p.notes
      → All (IsOf t.id) (note_erased id r p).notes
  unfolding note_erased
  note_erased-IsOwn id (value u) h = All-filter (IsOf t.id) (λ n. not (n.id == id)) p.notes h
  note_erased-IsOwn id no_content h = All-filter (IsOf t.id) (λ n. not (n.id == id)) p.notes h
  note_erased-IsOwn id (raised f) h = h

selected_after_notes :
    (r : Outcome (List StaffNote)) (p : SupportPage) → (notes_came r p).selected ≡ p.selected
unfolding notes_came
selected_after_notes (value ns) p = refl
selected_after_notes no_content p = refl
selected_after_notes (raised f) p = refl

selected_after_note :
    (r : Outcome StaffNote) (p : SupportPage) → (note_added r p).selected ≡ p.selected
unfolding note_added
selected_after_note (value n) p = refl
selected_after_note no_content p = refl
selected_after_note (raised f) p = refl

selected_after_erasing :
    (id : String) (r : Outcome (Unit {0})) (p : SupportPage)
    → (note_erased id r p).selected ≡ p.selected
unfolding note_erased
selected_after_erasing id (value u) p = refl
selected_after_erasing id no_content p = refl
selected_after_erasing id (raised f) p = refl

module _ (w : World) (before after : List Flight) (h : ShowsOwn w) where
  notes_answered-ShowsOwn :
      (id : String) (reply : Fetched (List StaffNote))
      → w.flights ≡ before ++ reading id ∷ after
      → AreNotesOf id (outcome reply)
      → ShowsOwn (land notes_came reply (before ++ after) w)
  notes_answered-ShowsOwn id reply e mine =
      let (t, shown, same, kept, rest) =
        landed w.page.selected w.page.notes w.flights before after (reading id) e h in
      IsOwn-selected _ t _ _ (selected_after_notes (outcome reply) w.page ∙ shown)
        (notes_came-IsOwn w.page t (outcome reply) (rw same at mine) kept) rest

  note_answered-ShowsOwn :
      (id : String) (reply : Fetched StaffNote)
      → w.flights ≡ before ++ adding id ∷ after
      → IsNoteOf id (outcome reply)
      → ShowsOwn (land note_added reply (before ++ after) w)
  note_answered-ShowsOwn id reply e mine =
      let (t, shown, same, kept, rest) =
        landed w.page.selected w.page.notes w.flights before after (adding id) e h in
      IsOwn-selected _ t _ _ (selected_after_note (outcome reply) w.page ∙ shown)
        (note_added-IsOwn w.page t (outcome reply) (rw same at mine) kept) rest

  deletion_answered-ShowsOwn :
      (id note_id : String) (reply : Fetched (Unit {0}))
      → w.flights ≡ before ++ erasing id note_id ∷ after
      → ShowsOwn (land (note_erased note_id) reply (before ++ after) w)
  deletion_answered-ShowsOwn id note_id reply e =
      let (t, shown, same, kept, rest) =
        landed w.page.selected w.page.notes w.flights before after (erasing id note_id) e h in
      IsOwn-selected _ t _ _ (selected_after_erasing note_id (outcome reply) w.page ∙ shown)
        (note_erased-IsOwn w.page t note_id (outcome reply) kept) rest

module _ (env : Option String) where
  selected-ShowsOwn :
      (w : World) (t : TenantStats) → w.flights ≡ [] → ShowsOwn (select_tenant env t w)
  unfolding select_tenant
  selected-ShowsOwn w t e = rw e (tt, (refl, tt))

  posted-IsOwn :
      (o : Option TenantStats) (w : World)
      → w.page.selected ≡ o
      → ShowsOwn w
      → ShowsOwn (post_selected env o w)
  unfolding post_selected post_for
  posted-IsOwn none w e h = h
  posted-IsOwn (some t) w e h = elim (Bool-cases (trim w.page.new_note == "")) [
    | inl blank ↦ rw blank h
    | inr filled ↦ rw filled (
        let own : IsOwn (some t) w.page.notes w.flights = rw e at h in
        IsOwn-selected w.page.selected t w.page.notes (adding t.id ∷ w.flights) e own.0
          (refl, own.1))
  ]

  posted-ShowsOwn : (w : World) → ShowsOwn w → ShowsOwn (handle_post env w)
  unfolding handle_post
  posted-ShowsOwn w h = posted-IsOwn w.page.selected w refl h

  deleted-IsOwn :
      (o : Option TenantStats) (w : World) (id : String)
      → w.page.selected ≡ o
      → ShowsOwn w
      → ShowsOwn (delete_selected env o id w)
  unfolding delete_selected
  deleted-IsOwn none w id e h = h
  deleted-IsOwn (some t) w id e h =
      let own : IsOwn (some t) w.page.notes w.flights = rw e at h in
      IsOwn-selected w.page.selected t w.page.notes (erasing t.id id ∷ w.flights) e own.0
        (refl, own.1)

  deleted-ShowsOwn : (w : World) (id : String) → ShowsOwn w → ShowsOwn (handle_delete env id w)
  unfolding handle_delete
  deleted-ShowsOwn w id h = deleted-IsOwn w.page.selected w id refl h

  Step-ShowsOwn : {v w : World} → Step env true v w → ShowsOwn v → ShowsOwn w
  Step-ShowsOwn (selected w t free) h = selected-ShowsOwn w t (free refl)
  Step-ShowsOwn (posted w) h = posted-ShowsOwn w h
  Step-ShowsOwn (deleted w id) h = deleted-ShowsOwn w id h
  Step-ShowsOwn (typed w s) h = h
  Step-ShowsOwn (notes_answered w id before after reply e mine) h =
      notes_answered-ShowsOwn w before after h id reply e mine
  Step-ShowsOwn (note_answered w id before after reply e mine) h =
      note_answered-ShowsOwn w before after h id reply e mine
  Step-ShowsOwn (deletion_answered w id note_id before after reply e) h =
      deletion_answered-ShowsOwn w before after h id note_id reply e

  -- If the user selects a tenant only while no call of the page is under way, and the server answers
  -- with notes of the tenant it is asked about, then whatever else is typed, posted and deleted,
  -- and in whatever order answers come, the page goes on showing notes of the selected tenant only,
  -- and none where no tenant is selected.
  pub Reach-ShowsOwn : {v w : World} → Reach env true v w → ShowsOwn v → ShowsOwn w
  Reach-ShowsOwn here h = h
  Reach-ShowsOwn (next r s) h = Step-ShowsOwn s (Reach-ShowsOwn r h)
