-- ===== src/Staff/ApiKeys/Laws.antt =====
-- Revoking a key, and the counts that the page shows.
use the_eye.Base.{
  ◌+◌, Bool, true, not, ◌&&◌, Option, none, some, List, [], ◌∷◌, map, String, ◌≡◌, refl, arith,
  ◌==◌, filter, all, length, length-filter,
}
use the_eye.Browser.{Browser}
use the_eye.Http.{Fetched, outcome}
use the_eye.Page.{succeeded}
use the_eye.Staff.Api.Access.{StaffApiKey, revoke_api_key}
use the_eye.Staff.Api.Call.{access, staff_asked}
use the_eye.Staff.Page.Laws.{staff_attempt_of_success}
use the_eye.Staff.Tenant.{revoke_in}
use the_eye.Staff.ApiKeys.{ApiKeysPage, revoke_one, active_count, revoked_count}

abbrev pub is_live : String → StaffApiKey → Bool
is_live id k = k.id == id && k.is_active

none_live :
    (id : String) (ks : List StaffApiKey)
    → all (λ k. not (is_live id k)) (map (revoke_in id) ks) ≡ true
none_live id [] = refl
none_live id (k ∷ ks) = ground (arith, none_live id ks)

ids-revoke_in :
    (id : String) (ks : List StaffApiKey)
    → map (λ k. k.id) (map (revoke_in id) ks) ≡ map (λ k. k.id) ks
ids-revoke_in id [] = refl
ids-revoke_in id (k ∷ ks) = ground (arith, ids-revoke_in id ks)

-- The live keys of the id are those that are lost.
active_count-revoke_in :
    (id : String) (ks : List StaffApiKey)
    → active_count (map (revoke_in id) ks) + length (filter (is_live id) ks) ≡ active_count ks
unfolding active_count
active_count-revoke_in id [] = omega arith
active_count-revoke_in id (k ∷ ks) = ground (arith, active_count-revoke_in id ks)

-- The keys shown as active and those shown as revoked are together all keys.
pub active_count-revoked_count :
    (ks : List StaffApiKey) → active_count ks + revoked_count ks ≡ length ks
unfolding active_count revoked_count
active_count-revoked_count ks = omega (arith, length-filter (λ k. k.is_active) ks)

module _ (env : Option String) (k : StaffApiKey) (reply : Fetched (Unit {0})) (page : ApiKeysPage)
    (b : Browser) where
  -- Once the server has revoked a key, whether its answer has content or not, keys of the same ids are listed in the same order, none of
  -- that id is active, the count of active keys has fallen by just the active keys that had the id,
  -- and no question about a key is open.
  pub revoke_one_accepted :
      succeeded (outcome reply) ≡ true
      → (map (λ x. x.id) (revoke_one env k reply page b).0.keys ≡ map (λ x. x.id) page.keys)
        × (all (λ x. not (is_live k.id x)) (revoke_one env k reply page b).0.keys ≡ true)
        × (active_count (revoke_one env k reply page b).0.keys
              + length (filter (is_live k.id) page.keys)
            ≡ active_count page.keys)
        × ((revoke_one env k reply page b).0.confirm_revoke ≡ none)
        × ((revoke_one env k reply page b).1 ≡ staff_asked env (access (revoke_api_key k.id)) b)
  unfolding revoke_one
  revoke_one_accepted e =
      rw
        (staff_attempt_of_success env (access (revoke_api_key k.id)) reply
          (record page { revoking = some k.id }) b _ e)
        (
          ids-revoke_in k.id page.keys,
          none_live k.id page.keys,
          active_count-revoke_in k.id page.keys,
          refl,
          refl,
        )
