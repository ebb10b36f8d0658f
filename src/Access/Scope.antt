-- ===== src/Access/Scope.antt =====
-- The access rules of apps/backend/src/lib/community-access.ts, on a token and on the database.
use mathlib.Core.Path.{fun_ext}
use finskool_monorepo.Base.{
  ℕ, ◌≡◌, ap, ◌∙◌, sym, not, ◌&&◌, ◌==◌, is_none, arith, includes, any_where, find_first,
  any_where-find_first, includes-find_many, &&_comm,
}
use finskool_monorepo.Access.{
  Directory, get_accessible_community_ids, granted_ids, assert_community_access,
  assert_community_access_from_token,
}

-- Being granted a community, as `includes` on the ids and as a query on the grants.
pub includes-granted_ids :
    (d : Directory) (admin_id community_id : ℕ)
    → includes community_id (granted_ids d admin_id)
      ≡ any_where (λ g. g.admin_id == admin_id && g.community_id == community_id) d.community_admins
unfolding granted_ids
includes-granted_ids d admin_id community_id =
    includes-find_many (λ g. g.community_id) (λ g. g.admin_id == admin_id) community_id
      d.community_admins

grant_found :
    (d : Directory) (admin_id community_id : ℕ)
    → not (
        is_none (
          find_first
            (λ g. g.community_id == community_id && g.admin_id == admin_id)
            d.community_admins))
      ≡ includes community_id (granted_ids d admin_id)
grant_found d admin_id community_id =
    any_where-find_first _ d.community_admins
    ∙ ap (λ w. any_where w d.community_admins)
        (fun_ext (λ g. &&_comm (g.community_id == community_id) (g.admin_id == admin_id)))
    ∙ sym (includes-granted_ids d admin_id community_id)

-- On every admin and community, the check against the database gives the result of the check
-- against a token that was issued from the same database.
pub assert_community_access-eq-from_token :
    (d : Directory) (admin_id community_id : ℕ)
    → assert_community_access d admin_id community_id
      ≡ assert_community_access_from_token (get_accessible_community_ids d admin_id) community_id
unfolding assert_community_access assert_community_access_from_token get_accessible_community_ids
assert_community_access-eq-from_token d admin_id community_id =
    ground (arith, grant_found d admin_id community_id)
