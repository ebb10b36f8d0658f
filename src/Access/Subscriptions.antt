-- ===== src/Access/Subscriptions.antt =====
-- A member's running subscriptions (apps/backend/src/lib/community-access.ts).
use finskool_monorepo.Base.{
  ℕ, ◌≡◌, ap, sym, ◌∙◌, ◌<◌, ◌&&◌, ◌==◌, leb, includes, any_where, any_where-count_where,
  includes-find_many, arith, ◌≤◌, ◌+◌,
}
use mathlib.Core.Path.{fun_ext}
use finskool_monorepo.Access.{
  Directory, is_paid_member_of_community, get_paid_community_ids, subscription_cutoff, day_ms,
}
use finskool_monorepo.Access.Audience.{includes-dedupe}

-- At any instant, the communities listed for a member are exactly those that the check on one
-- community accepts.
pub includes-get_paid_community_ids :
    (d : Directory) (offset now user_id community_id : ℕ)
    → includes community_id (get_paid_community_ids d offset now user_id)
      ≡ is_paid_member_of_community d offset now user_id community_id
unfolding get_paid_community_ids is_paid_member_of_community
includes-get_paid_community_ids d offset now user_id community_id =
    includes-dedupe community_id _
    ∙ includes-find_many (λ s. s.community_id)
        (λ s.
          s.user_id == user_id && s.is_active && leb (subscription_cutoff offset now) s.valid_until)
        community_id d.subscriptions
    ∙ ap (λ w. any_where w d.subscriptions) (fun_ext (λ s. ground arith))
    ∙ sym (any_where-count_where _ d.subscriptions)

-- The cut-off is a moment of the current local day: at or before now, by less than a day.
subscription_cutoff_bounds :
    (offset now : ℕ)
    → day_ms ≤ now
    → offset < day_ms
    → (subscription_cutoff offset now ≤ now) × (now < subscription_cutoff offset now + day_ms)
unfolding subscription_cutoff
subscription_cutoff_bounds offset now h k = omega arith
