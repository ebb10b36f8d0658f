-- ===== src/Access.antt =====
-- Who may see and act on what: apps/backend/src/lib/community-access.ts, over the four tables of
-- apps/backend/prisma/schema.prisma that it reads. Ids are only compared, so they are numbers; times
-- are milliseconds.
pub mod Scope
pub mod Audience
pub mod Subscriptions
mod Examples
use finskool_monorepo.Base.{
  Text, ℕ, ◌+◌, ◌-◌, ◌*◌, ◌/◌, Bool, true, false, not, ◌&&◌, ◌||◌, Option, none, some, List, [],
  ◌∷◌, map, ◌==◌, leb, ltb, is_none, if◌then◌else◌, find_first, find_many, count_where, any_where,
  includes, Result, ok, err, ErrorCode, AppError,
}

pub data UserRole : Type 0 where
  admin member : UserRole

pub data UserStatus : Type 0 where
  active suspended deleted : UserStatus

pub record User : Type 0 where
  pub id : ℕ
  pub name : Text
  pub role : UserRole
  pub super_admin : Bool
  pub status : UserStatus
  pub deleted_at : Option ℕ

pub record Community : Type 0 where
  pub id : ℕ
  pub name : Text
  pub deleted_at : Option ℕ

pub record Subscription : Type 0 where
  pub user_id : ℕ
  pub community_id : ℕ
  pub valid_until : ℕ
  pub is_active : Bool

pub record CommunityAdmin : Type 0 where
  pub community_id : ℕ
  pub admin_id : ℕ

pub record Directory : Type 0 where
  pub users : List User
  pub communities : List Community
  pub subscriptions : List Subscription
  pub community_admins : List CommunityAdmin

abbrev pub is_admin : UserRole → Bool
is_admin admin = true
is_admin member = false

pub find_user : Directory → ℕ → Option User
find_user d id = find_first (λ u. u.id == id) d.users

-- `admin?.isSuperAdmin ?? false`
abbrev pub is_super_user : Option User → Bool
is_super_user none = false
is_super_user (some u) = u.super_admin

unfoldable pub is_super_admin : Directory → ℕ → Bool
unfolding find_user
is_super_admin d admin_id = is_super_user (find_user d admin_id)

-- The communities that an admin was granted.
pub granted_ids : Directory → ℕ → List ℕ
granted_ids d admin_id =
    map (λ g. g.community_id) (find_many (λ g. g.admin_id == admin_id) d.community_admins)

-- `none` is unrestricted (a super admin); `some` is the exact set that was granted.
unfoldable pub get_accessible_community_ids : Directory → ℕ → Option (List ℕ)
unfolding is_super_admin granted_ids
get_accessible_community_ids d admin_id =
    if is_super_admin d admin_id then none else some (granted_ids d admin_id)

-- `{ role: 'admin', deletedAt: null }`
abbrev pub is_live_admin : User → Bool
is_live_admin u = is_admin u.role && is_none u.deleted_at

-- `communityAccess: { some: { communityId: { in: ids } } }`
pub has_grant_in : Directory → List ℕ → User → Bool
has_grant_in d ids u =
    any_where (λ g. g.admin_id == u.id && includes g.community_id ids) d.community_admins

-- `communityAccess: { some: { communityId } }`
pub has_grant : Directory → ℕ → User → Bool
has_grant d community_id u =
    any_where (λ g. g.admin_id == u.id && g.community_id == community_id) d.community_admins

unfoldable pub get_community_admin_ids : Directory → ℕ → List ℕ
unfolding has_grant
get_community_admin_ids d community_id =
    map (λ u. u.id)
      (find_many (λ u. is_live_admin u && (u.super_admin || has_grant d community_id u)) d.users)

unfoldable pub get_all_admin_ids : Directory → List ℕ
get_all_admin_ids d = map (λ u. u.id) (find_many is_live_admin d.users)

-- `[...new Set(ids)]`: the first of each.
abbrev pub dedupe : List ℕ → List ℕ
dedupe [] = []
dedupe (x ∷ xs) = x ∷ find_many (λ y. not (y == x)) (dedupe xs)

-- `communityIds.length ? [{ communityAccess: … }] : []` in an OR
abbrev pub some_grant : Directory → List ℕ → User → Bool
some_grant d [] u = false
some_grant d (c ∷ cs) u = has_grant_in d (c ∷ cs) u

unfoldable pub get_admin_ids_with_member_access : Directory → ℕ → List ℕ
unfolding has_grant_in find_many
get_admin_ids_with_member_access d user_id =
    let subs = find_many (λ s. s.user_id == user_id) d.subscriptions in
    let community_ids = dedupe (map (λ s. s.community_id) subs) in
    map (λ u. u.id)
      (find_many (λ u. is_live_admin u && (u.super_admin || some_grant d community_ids u)) d.users)

abbrev pub access_denied : AppError
access_denied = AppError.forbidden ErrorCode.community_access_denied

unfoldable pub assert_community_access : Directory → ℕ → ℕ → Result (Unit {0})
unfolding is_super_admin
assert_community_access d admin_id community_id =
    if is_super_admin d admin_id
    then ok tt
    else if is_none (
        find_first (λ g. g.community_id == community_id && g.admin_id == admin_id)
          d.community_admins)
    then err access_denied
    else ok tt

unfoldable pub has_community_access : Option (List ℕ) → ℕ → Bool
has_community_access none community_id = true
has_community_access (some ids) community_id = includes community_id ids

unfoldable pub assert_community_access_from_token : Option (List ℕ) → ℕ → Result (Unit {0})
unfolding has_community_access
assert_community_access_from_token ids community_id =
    if has_community_access ids community_id then ok tt else err access_denied

unfoldable pub has_member_access : Directory → Option (List ℕ) → ℕ → Bool
has_member_access d none user_id = true
has_member_access d (some []) user_id = false
has_member_access d (some (c ∷ cs)) user_id = not (
    is_none
      (find_first (λ s. s.user_id == user_id && includes s.community_id (c ∷ cs)) d.subscriptions))

unfoldable pub assert_member_access : Directory → Option (List ℕ) → ℕ → Result (Unit {0})
unfolding has_member_access
assert_member_access d ids user_id =
    if has_member_access d ids user_id
    then ok tt
    else err (AppError.forbidden ErrorCode.member_access_denied)

abbrev pub day_ms : ℕ
day_ms = 86400000

-- `setHours(0, 0, 0, 0)` on a server whose clock runs `offset` ms ahead of UTC.
unfoldable pub subscription_cutoff : ℕ → ℕ → ℕ
subscription_cutoff offset now = (now + offset) / day_ms * day_ms - offset

unfoldable pub is_paid_member_of_community : Directory → ℕ → ℕ → ℕ → ℕ → Bool
unfolding subscription_cutoff count_where
is_paid_member_of_community d offset now user_id community_id = ltb 0 (
    count_where
      (λ s.
        s.user_id == user_id
        && s.community_id == community_id
        && s.is_active
        && leb (subscription_cutoff offset now) s.valid_until)
      d.subscriptions)

unfoldable pub get_paid_community_ids : Directory → ℕ → ℕ → ℕ → List ℕ
unfolding subscription_cutoff find_many
get_paid_community_ids d offset now user_id = dedupe (
    map (λ s. s.community_id)
      (find_many
        (λ s.
          s.user_id == user_id && s.is_active && leb (subscription_cutoff offset now) s.valid_until)
        d.subscriptions))

unfoldable pub assert_super_admin : Directory → ℕ → Result (Unit {0})
unfolding is_super_admin
assert_super_admin d admin_id =
    if is_super_admin d admin_id
    then ok tt
    else err (AppError.forbidden ErrorCode.super_admin_required)
