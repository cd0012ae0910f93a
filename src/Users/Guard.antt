-- ===== src/Users/Guard.antt =====
-- The guard of the button that blocks a user keeps an active admin.
use the_eye.Base.{
  ◌+◌, ◌<◌, Bool, true, false, not, ◌&&◌, ◌||◌, Option, List, [], ◌∷◌, ◌++◌, String, ◌≡◌, refl,
  arith, ◌==◌, eq_refl, length, all, filter-append, length-append, if◌then◌else◌,
}
use the_eye.Api.Users.{UserRead}
use the_eye.Users.{UsersPage, is_active_admin, active_admins, is_last_admin, is_text, can_block}

-- What the server does on `deactivate`: the users with the id are no longer active.
abbrev pub deactivated : String → List UserRead → List UserRead
deactivated id [] = []
deactivated id (u ∷ us) =
    (if u.id == id then record u { is_active = false } else u) ∷ deactivated id us

abbrev pub is_other : String → UserRead → Bool
is_other id u = not (u.id == id)

deactivated-append :
    (id : String) (us vs : List UserRead)
    → deactivated id (us ++ vs) ≡ deactivated id us ++ deactivated id vs
deactivated-append id [] vs = refl
deactivated-append id (u ∷ us) vs = cc (deactivated-append id us vs)

deactivated_others :
    (id : String) (us : List UserRead) → all (is_other id) us ≡ true → deactivated id us ≡ us
deactivated_others id [] h = refl
deactivated_others id (u ∷ us) h = ground (arith, deactivated_others id us)

admins-append :
    (us vs : List UserRead)
    → length (active_admins (us ++ vs)) ≡ length (active_admins us) + length (active_admins vs)
admins-append us vs =
    rw (filter-append is_active_admin us vs) (length-append (active_admins us) (active_admins vs))

module _ (before after : List UserRead) (u : UserRead) where
  admins-before :
      length (active_admins (before ++ u ∷ after))
      ≡ length (active_admins before)
        + length (active_admins after)
        + (if is_active_admin u then 1 else 0)
  admins-before = ground (arith, admins-append before (u ∷ after))

  admins-deactivated :
      all (is_other u.id) before ≡ true
      → all (is_other u.id) after ≡ true
      → length (active_admins (deactivated u.id (before ++ u ∷ after)))
        ≡ length (active_admins before) + length (active_admins after)
  admins-deactivated h k = rw deactivated-append (
      rw (deactivated_others u.id before h) (
        rw (deactivated_others u.id after k) (
          ground
            (arith, eq_refl u.id, admins-append before (record u { is_active = false } ∷ after)))))

  admins_kept :
      all (is_other u.id) before ≡ true
      → all (is_other u.id) after ≡ true
      → 0 < length (active_admins (before ++ u ∷ after))
      → is_last_admin (before ++ u ∷ after) u ≡ false
      → 0 < length (active_admins (deactivated u.id (before ++ u ∷ after)))
  admins_kept h k some_admin not_last = rw (admins-deactivated h k) (ground (arith, admins-before))

false_of_guard :
    (other active asked loading saving last : Bool)
    → (other && active && asked && not (loading || saving || last)) ≡ true
    → last ≡ false
false_of_guard other active asked loading saving last h = ground arith

can_block-not_last :
    (my_username : Option String) (page : UsersPage) (u : UserRead)
    → can_block my_username page u ≡ true
    → is_last_admin page.users u ≡ false
unfolding can_block
can_block-not_last my_username page u h =
    false_of_guard (not (is_text my_username u.username)) u.is_active
      (is_text page.confirm_block_id u.id) (is_text page.loading_id u.id)
      (is_text page.saving_role_id u.id) (is_last_admin page.users u) h

-- If the list has an active admin, the page lets an admin block a user of it, and no other user
-- has this user's id, then an active admin is left once the server has made this user inactive.
pub can_block-active_admins :
    (my_username : Option String) (page : UsersPage) (before after : List UserRead) (u : UserRead)
    → page.users ≡ before ++ u ∷ after
    → all (is_other u.id) before ≡ true
    → all (is_other u.id) after ≡ true
    → 0 < length (active_admins page.users)
    → can_block my_username page u ≡ true
    → 0 < length (active_admins (deactivated u.id page.users))
can_block-active_admins my_username page before after u e others_before others_after some_admin
      can =
    rw e (
      admins_kept before after u others_before others_after (rw e at some_admin)
        (rw e at (can_block-not_last my_username page u can)))
