-- ===== src/Examples/Pages.antt =====
-- The pages of the dashboard: users, keys, deletion requests and events.
use the_eye.Base.{
  ◌++◌, ◌&&◌, not, ℕ, zero, suc, ◌<◌, ◌≤◌, true, false, not, ◌==◌, none, some, List, [], ◌∷◌, map,
  String, ◌≡◌, refl, arith, length, filter, all,
}
use the_eye.Base.Dict.{remove}
use the_eye.Http.{value}
use the_eye.Session.{session_json}
use the_eye.Api.Keys.{ApiKeyOut, Plan, SubscriptionOut}
use the_eye.Users.{UsersPage, active_admins, handle_reset_password}
use the_eye.Users.Guard.{deactivated, can_block-active_admins}
use the_eye.Keys.{KeysPage, at_limit}
use the_eye.Keys.Limit.{at_limit_unlimited}
use the_eye.Deletion.{may_open, can_vote}
use the_eye.Api.Oversight.{DeletionApproval}
use the_eye.Deletion.Laws.{may_open-sidebar, can_vote_once}
use the_eye.Nav.{session_role, is_role}
use the_eye.Nav.Laws.{shows}
use the_eye.LiveEvents.{EventsPage, polled, here, next, poll_answered}
use the_eye.LiveEvents.Laws.{IsSynced, Reach-IsSynced, polled_lem}
use the_eye.Examples.Data.{alice, older, newer, filters, ann, bob, vote, pending_request}

abbrev users_page : UsersPage
users_page = record {
  users = ann ∷ bob ∷ [];
  error = none;
  username = "";
  password = "";
  role = "viewer";
  creating = false;
  changing_role_id = none;
  pending_role = [];
  saving_role_id = none;
  resetting_id = some "u2";
  reset_passwords = ("u2", "a new long password") ∷ [];
  confirm_block_id = some "u2";
  loading_id = none;
}

can_block-active_admins_example : 0 < length (active_admins (deactivated "u2" (ann ∷ bob ∷ [])))
unfolding the_eye.Users.can_block
can_block-active_admins_example =
    can_block-active_admins (some "ann") users_page (ann ∷ []) [] bob refl refl refl (omega arith)
      refl

abbrev key_with : String → ApiKeyOut
key_with id = record {
  id = id;
  name = "agent";
  key_prefix = "eye_";
  is_active = true;
  last_used_at = none;
  expires_at = none;
  created_at = "2025-01-01";
  created_by_username = none;
}

abbrev keys_page : KeysPage
keys_page = record {
  keys = key_with "k1" ∷ key_with "k2" ∷ [];
  sub = none;
  loading = false;
  error = none;
  show_new = false;
  created_key = none;
  revoking = none;
  toggling = none;
  warning = none;
}

abbrev unlimited : Plan
unlimited = record {
  id = "p1";
  name = "Enterprise";
  slug = "enterprise";
  description = none;
  price_monthly = none;
  price_annual = none;
  currency = "USD";
  features = none;
  limits = some (("api_keys", none) ∷ []);
  is_public = true;
  sort_order = 3;
  has_paddle = false;
  paddle_price_id_monthly = none;
  paddle_price_id_annual = none;
}

abbrev enterprise : SubscriptionOut
enterprise = record {
  tenant_id = "t1";
  tenant_name = "Acme";
  plan = some unlimited;
  paddle_subscription_id = none;
  paddle_subscription_status = none;
  paddle_customer_id = none;
}

abbrev copies : ℕ → List ApiKeyOut
copies zero = []
copies (suc n) = key_with "k" ∷ copies n

abbrev full_page : KeysPage
full_page = record keys_page { keys = copies 20; sub = some enterprise }

at_limit_unlimited_example : at_limit full_page ≡ true
unfolding the_eye.Base.Dict.lookup
at_limit_unlimited_example =
    at_limit_unlimited full_page enterprise unlimited (("api_keys", none) ∷ []) refl refl refl refl
      (omega arith)

may_open-sidebar_example :
    may_open (some (session_json alice))
    ≡ shows (some (session_json alice)) "/admin/deletion-requests"
may_open-sidebar_example = may_open-sidebar (some (session_json alice))

-- The vote of another role, after that of the session.
abbrev other_vote : DeletionApproval
other_vote = record {
  approver_role = "security_officer";
  decision = "approve";
  decided_at = "2025-01-03";
}

can_vote_once_example :
    can_vote
      (some (session_json (record alice { role = "chief_auditor" })))
      (record pending_request { approvals = [] ++ vote ∷ other_vote ∷ [] })
    ≡ (not (
          is_role vote.approver_role
            (session_role (some (session_json (record alice { role = "chief_auditor" })))))
        && can_vote
            (some (session_json (record alice { role = "chief_auditor" })))
            (record pending_request { approvals = [] ++ other_vote ∷ [] }))
can_vote_once_example =
    can_vote_once (some (session_json (record alice { role = "chief_auditor" }))) pending_request []
      (other_vote ∷ []) vote

abbrev events_page : EventsPage
events_page = record {
  filters = filters;
  events = older;
  loading = false;
  error = none;
  live = true;
  new_ids = [];
  max_seen_seq = 4;
}

Reach-IsSynced_example : IsSynced (polled (value newer) events_page)
Reach-IsSynced_example = Reach-IsSynced (next here (poll_answered events_page (value newer))) refl

polled_lem_example :
    polled (value newer) events_page
    ≡ record events_page { events = newer; max_seen_seq = 6; new_ids = "e6" ∷ "e5" ∷ [] }
polled_lem_example = polled_lem newer events_page
