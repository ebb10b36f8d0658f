-- ===== src/Access/Audience.antt =====
-- Who is told about a community or a member, against who may open it
-- (apps/backend/src/lib/community-access.ts).
use mathlib.Core.Path.{fun_ext}
use finskool_monorepo.Base.{
  ℕ, ◌≡◌, any_where-false, includes-find_many_ne, any_where-swap, if◌then◌else◌, ==→eq,
  find_first-holds, refl, ap, ◌∙◌, sym, Bool, true, ◌&&◌, ◌||◌, Option, none, some, List, [], ◌∷◌,
  map, ◌==◌, arith, includes, any_where, find_first, find_many, any_where-find_first,
  includes-find_many, any_where-key, UniqueKey, holds,
}
use finskool_monorepo.Access.{
  Directory, User, find_user, is_live_admin, is_super_user, get_accessible_community_ids,
  granted_ids, get_community_admin_ids, has_grant, has_grant_in, some_grant, dedupe,
  get_admin_ids_with_member_access, has_member_access, has_community_access,
}
use finskool_monorepo.Access.Scope.{includes-granted_ids}

-- Users have a primary key.
abbrev pub HasUniqueUsers : Directory → Type 0
HasUniqueUsers d = UniqueKey (λ (u : User). u.id) d.users

-- A query for live admins who are super admins or pass a test on their grants, as a rule on the
-- ids that a token of theirs would carry.
module _ (d : Directory) (admin_id : ℕ) (grants : User → Bool) (rule : Option (List ℕ) → Bool) where
  by_user :
      rule none ≡ true
      → (o : Option User)
      → ((u : User) → o ≡ some u → grants u ≡ rule (some (granted_ids d admin_id)))
      → holds (λ u. is_live_admin u && (u.super_admin || grants u)) o ≡ (
          holds is_live_admin o
          && rule (if is_super_user o then none else some (granted_ids d admin_id)))
  by_user unrestricted none same = refl
  by_user unrestricted (some u) same = ground (arith, same u refl)

  audience :
      UniqueKey (λ (u : User). u.id) d.users
      → rule none ≡ true
      → ((u : User) → u.id ≡ admin_id → grants u ≡ rule (some (granted_ids d admin_id)))
      → includes admin_id (
          map (λ u. u.id) (find_many (λ u. is_live_admin u && (u.super_admin || grants u)) d.users))
        ≡ (holds is_live_admin (find_user d admin_id)
            && rule (get_accessible_community_ids d admin_id))
  unfolding get_accessible_community_ids find_user
  audience unique unrestricted same =
      includes-find_many (λ u. u.id) (λ u. is_live_admin u && (u.super_admin || grants u)) admin_id
        d.users
      ∙ any_where-key (λ u. u.id) (λ u. is_live_admin u && (u.super_admin || grants u)) admin_id
          d.users unique
      ∙ by_user unrestricted (find_first (λ u. u.id == admin_id) d.users)
          (λ u e. same u (==→eq u.id admin_id (find_first-holds (λ v. v.id == admin_id) d.users e)))

-- The admins told about a community are exactly the live admins whose accessible communities
-- include it, when user ids are unique.
pub includes-get_community_admin_ids :
    (d : Directory) (admin_id community_id : ℕ)
    → HasUniqueUsers d
    → includes admin_id (get_community_admin_ids d community_id) ≡ (
        holds is_live_admin (find_user d admin_id)
        && has_community_access (get_accessible_community_ids d admin_id) community_id)
unfolding get_community_admin_ids has_community_access
includes-get_community_admin_ids d admin_id community_id unique =
    audience d admin_id (has_grant d community_id) (λ ids. has_community_access ids community_id)
      unique refl (λ u e. sym (rw e (includes-granted_ids d admin_id community_id)))

pub includes-dedupe : (a : ℕ) (xs : List ℕ) → includes a (dedupe xs) ≡ includes a xs
includes-dedupe a [] = refl
includes-dedupe a (x ∷ xs) =
    ground (arith, includes-find_many_ne a x (dedupe xs), includes-dedupe a xs)

some_grant-eq-has_grant_in :
    (d : Directory) (ids : List ℕ) (u : User) → some_grant d ids u ≡ has_grant_in d ids u
unfolding has_grant_in
some_grant-eq-has_grant_in d [] u = sym (any_where-false _ d.community_admins (λ g. ground arith))
some_grant-eq-has_grant_in d (c ∷ cs) u = refl

-- `hasMemberAccess` on a list of ids, the empty one included, is one query.
has_member_access-some :
    (d : Directory) (ids : List ℕ) (user_id : ℕ)
    → has_member_access d (some ids) user_id
      ≡ any_where (λ s. s.user_id == user_id && includes s.community_id ids) d.subscriptions
unfolding has_member_access
has_member_access-some d [] user_id = sym (any_where-false _ d.subscriptions (λ s. ground arith))
has_member_access-some d (c ∷ cs) user_id = any_where-find_first _ d.subscriptions

-- The communities of a member's subscriptions.
abbrev member_communities : Directory → ℕ → List ℕ
member_communities d user_id =
    dedupe (map (λ s. s.community_id) (find_many (λ s. s.user_id == user_id) d.subscriptions))

includes-member_communities :
    (d : Directory) (user_id community_id : ℕ)
    → includes community_id (member_communities d user_id)
      ≡ any_where (λ s. s.user_id == user_id && s.community_id == community_id) d.subscriptions
includes-member_communities d user_id community_id =
    includes-dedupe community_id _
    ∙ includes-find_many (λ s. s.community_id) (λ s. s.user_id == user_id) community_id
        d.subscriptions

grants-eq-member_access :
    (d : Directory) (admin_id user_id : ℕ) (u : User)
    → u.id ≡ admin_id
    → some_grant d (member_communities d user_id) u
      ≡ has_member_access d (some (granted_ids d admin_id)) user_id
unfolding has_grant_in
grants-eq-member_access d admin_id user_id u e =
    some_grant-eq-has_grant_in d (member_communities d user_id) u
    ∙ ap (λ w. any_where w d.community_admins)
        (fun_ext (λ g. rw (e, includes-member_communities d user_id g.community_id)))
    ∙ any_where-swap (λ g. g.admin_id == admin_id) (λ s. s.user_id == user_id) (λ g. g.community_id)
        (λ s. s.community_id) d.community_admins d.subscriptions
    ∙ ap (λ w. any_where w d.subscriptions)
        (fun_ext (λ s. rw (includes-granted_ids d admin_id s.community_id)))
    ∙ sym (has_member_access-some d (granted_ids d admin_id) user_id)

-- The admins told about a member are exactly the live admins who may open the member's profile
-- under the ids of their token, when user ids are unique.
pub includes-get_admin_ids_with_member_access :
    (d : Directory) (admin_id user_id : ℕ)
    → HasUniqueUsers d
    → includes admin_id (get_admin_ids_with_member_access d user_id) ≡ (
        holds is_live_admin (find_user d admin_id)
        && has_member_access d (get_accessible_community_ids d admin_id) user_id)
unfolding get_admin_ids_with_member_access has_member_access
includes-get_admin_ids_with_member_access d admin_id user_id unique =
    audience d admin_id (some_grant d (member_communities d user_id))
      (λ ids. has_member_access d ids user_id) unique refl
      (grants-eq-member_access d admin_id user_id)
