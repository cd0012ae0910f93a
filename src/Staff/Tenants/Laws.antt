-- ===== src/Staff/Tenants/Laws.antt =====
-- What the filters of the tenants show, and switching a tenant on and off.
use the_eye.Base.{
  ◌∙◌, ap, false, ◌==◌, arith, Bool, ◌&&◌, Option, none, some, List, [], ◌∷◌, map, String, ◌≡◌,
  refl, filter, Bool-cases, inl, inr, if◌then◌else◌,
}
use the_eye.Base.Keyed.{remove_id, replace_id, ids-replace_id}
use the_eye.Browser.{Browser}
use the_eye.Http.{Fetched, value, outcome}
use the_eye.Staff.Api.Tenants.{TenantStats, suspend_tenant, activate_tenant}
use the_eye.Staff.Api.Call.{tenants, staff_asked}
use the_eye.Staff.Page.Laws.{staff_take_of_value}
use the_eye.Staff.Tenants.{
  matches_filter, TenantsPage, TenantFilter, active_tenants, suspended_tenants, tenant_id, toggle,
  toggle_call, matches_search, filtered,
}

-- A value that does not pass a filter takes those of its id out of what the filter shows.
filter-replace_id :
    (shows : TenantStats → Bool) (new : TenantStats) (ts : List TenantStats)
    → shows new ≡ false
    → filter shows (replace_id tenant_id new ts) ≡ remove_id tenant_id new.id (filter shows ts)
filter-replace_id shows new [] h = refl
filter-replace_id shows new (t ∷ ts) h = elim (Bool-cases (t.id == new.id)) [
  | inl same ↦ elim (Bool-cases (shows t)) [
    | inl shown ↦ rw same (rw h (rw shown (rw same (filter-replace_id shows new ts h))))
    | inr gone ↦ rw same (rw h (rw gone (filter-replace_id shows new ts h)))
  ]
  | inr other ↦ elim (Bool-cases (shows t)) [
    | inl shown ↦
        rw other (rw shown (rw other (ap (λ xs. t ∷ xs) (filter-replace_id shows new ts h))))
    | inr gone ↦ rw other (rw gone (filter-replace_id shows new ts h))
  ]
]

other_view :
    (view : TenantFilter) (updated : TenantStats) (found : Bool)
    → view ≡ (if updated.is_active then suspended_tenants else active_tenants)
    → (found && matches_filter view updated) ≡ false
other_view view updated found h = rw h (ground (arith))

module _ (env : Option String) (t : TenantStats) (reply : Fetched TenantStats) (page : TenantsPage)
    (b : Browser) where
  -- If the server accepts the call, suspending an active tenant or activating another sends that one
  -- call, puts the tenant that comes back in the place of those with its id, keeps the ids and
  -- their order, and ends the wait.
  pub toggle_accepted :
      {updated : TenantStats}
      → outcome reply ≡ value updated
      → ((toggle env t reply page b).0
          ≡ record page { listed = replace_id tenant_id updated page.listed; acting = none })
        × (map tenant_id (toggle env t reply page b).0.listed ≡ map tenant_id page.listed)
        × ((toggle env t reply page b).1
            ≡ staff_asked env
                (tenants (if t.is_active then suspend_tenant t.id else activate_tenant t.id))
                b)
  unfolding toggle
  toggle_accepted {updated} e =
      rw
        (staff_take_of_value env (tenants (toggle_call t)) reply
          (record page { acting = some t.id }) b _ e)
        (refl, ids-replace_id tenant_id updated page.listed, refl)

  -- If the server accepts the call on the view of active tenants and the tenant that comes back is
  -- suspended, or on the view of suspended ones and it is active, then for every search text the
  -- view shows just the tenants it showed before without those of its id, in their order.
  pub filtered-toggle :
      (lower : String → String) {updated : TenantStats}
      → outcome reply ≡ value updated
      → page.filter_by ≡ (if updated.is_active then suspended_tenants else active_tenants)
      → filtered lower (toggle env t reply page b).0
        ≡ remove_id tenant_id updated.id (filtered lower page)
  unfolding filtered
  filtered-toggle lower {updated} e view =
      ap (filtered lower) (toggle_accepted e).0
      ∙ filter-replace_id
          (λ x. matches_search lower page.search x && matches_filter page.filter_by x) updated
          page.listed
          (other_view page.filter_by updated (matches_search lower page.search updated) view)
