-- ===== src/Staff/Support/Stale.antt =====
-- The notes shown may be another tenant's, for a user who does not wait.
use the_eye.Base.{false, Option, some, List, [], ◌∷◌, String, ◌≡◌, refl, All, arith}
use the_eye.Http.{Fetched, value, outcome}
use the_eye.Staff.Api.Tenants.{TenantStats, StaffNote}
use the_eye.Staff.Support.{World, reading, select_tenant, notes_came, land}
use the_eye.Staff.Support.Steps.{IsOf, selected, notes_answered, Reach, here, next}

module _ (env : Option String) (w : World) (first second : TenantStats)
    (first_reply second_reply : Fetched (List StaffNote)) where
  abbrev both_asked : World
  both_asked = select_tenant env second (select_tenant env first w)

  abbrev second_came : World
  second_came = land notes_came second_reply (reading first.id ∷ w.flights) both_asked

  abbrev first_came : World
  first_came = land notes_came first_reply w.flights second_came

  -- A user who selects a tenant, and then another before the notes of the first are there, is shown
  -- the notes of the first under the name of the second where the answers come in the other order.
  pub stale_notes_reachable :
      {ns ms : List StaffNote}
      → outcome first_reply ≡ value ns
      → outcome second_reply ≡ value ms
      → All (IsOf first.id) ns
      → All (IsOf second.id) ms
      → (v : World) × Reach env false w v
        × (v.page.selected ≡ some second)
        × (v.page.notes ≡ ns)
        × (v.flights ≡ w.flights)
  unfolding select_tenant notes_came
  stale_notes_reachable e k mine others = (
    first_came,
    next
        (next
          (next (next here (selected w first λ p. ground arith))
            (selected (select_tenant env first w) second λ p. ground arith))
          (notes_answered both_asked second.id [] (reading first.id ∷ w.flights) second_reply refl
            (rw k others)))
        (notes_answered second_came first.id [] w.flights first_reply refl (rw e mine)),
    rw e (rw k refl),
    rw e refl,
    refl,
  )
