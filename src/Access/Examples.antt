-- ===== src/Access/Examples.antt =====
-- The access rules on a small database: one super admin, one admin of community 7, one member.
use finskool_monorepo.Base.{
  ◌≡◌, refl, true, false, none, [], ◌∷◌, err, includes, text, holds, ◌&&◌, any_where, find_first,
}
use finskool_monorepo.Access.{
  admin, member, active, User, Directory, access_denied, is_live_admin, find_user,
  assert_community_access, assert_community_access_from_token, get_accessible_community_ids,
  get_community_admin_ids, get_admin_ids_with_member_access, has_community_access,
  has_member_access, is_paid_member_of_community, get_paid_community_ids,
}
use finskool_monorepo.Access.Scope.{assert_community_access-eq-from_token}
use finskool_monorepo.Access.Audience.{
  HasUniqueUsers, includes-get_community_admin_ids, includes-get_admin_ids_with_member_access,
}
use finskool_monorepo.Access.Subscriptions.{includes-get_paid_community_ids}

abbrev root : User
root = record {
  id = 1;
  name = text "Root";
  role = admin;
  super_admin = true;
  status = active;
  deleted_at = none;
}

abbrev helper : User
helper = record root { id = 2; super_admin = false }

abbrev asha : User
asha = record root { id = 3; role = member; super_admin = false }

abbrev small : Directory
small = record {
  users = root ∷ helper ∷ asha ∷ [];
  communities = [];
  subscriptions =
      record { user_id = 3; community_id = 7; valid_until = 200000000; is_active = true } ∷ [];
  community_admins = record { community_id = 7; admin_id = 2 } ∷ [];
}

small-HasUniqueUsers : HasUniqueUsers small
unfolding any_where
small-HasUniqueUsers = (refl, (refl, (refl, tt)))

helper_denied : assert_community_access small 2 8 ≡ err access_denied
unfolding assert_community_access find_first
helper_denied = refl

assert_community_access-eq-from_token_example :
    assert_community_access small 2 7
    ≡ assert_community_access_from_token (get_accessible_community_ids small 2) 7
assert_community_access-eq-from_token_example = assert_community_access-eq-from_token small 2 7

includes-get_community_admin_ids_example : includes 2 (get_community_admin_ids small 7) ≡ (
    holds is_live_admin (find_user small 2)
    && has_community_access (get_accessible_community_ids small 2) 7)
includes-get_community_admin_ids_example =
    includes-get_community_admin_ids small 2 7 small-HasUniqueUsers

includes-get_admin_ids_with_member_access_example :
    includes 2 (get_admin_ids_with_member_access small 3) ≡ (
      holds is_live_admin (find_user small 2)
      && has_member_access small (get_accessible_community_ids small 2) 3)
includes-get_admin_ids_with_member_access_example =
    includes-get_admin_ids_with_member_access small 2 3 small-HasUniqueUsers

includes-get_paid_community_ids_example :
    includes 7 (get_paid_community_ids small 19800000 172800000 3)
    ≡ is_paid_member_of_community small 19800000 172800000 3 7
includes-get_paid_community_ids_example =
    includes-get_paid_community_ids small 19800000 172800000 3 7

paid_ids : get_paid_community_ids small 19800000 172800000 3 ≡ 7 ∷ []
unfolding get_paid_community_ids
paid_ids = refl
