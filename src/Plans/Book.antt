-- ===== src/Plans/Book.antt =====
-- What the orders and the subscriptions of plans keep under a grant
-- (apps/backend/src/modules/payments/payments.service.ts).
use finskool_monorepo.Base.{
  ℕ, ◌≡◌, Bool, true, false, ◌&&◌, ◌==◌, is_id, Option, none, some, List, find_first, holds, All,
  UniqueBy, UniqueKey,
}
use finskool_monorepo.Plans.{PlanOrder, PlanSubscription, PlanStore, is_paid_plan}

abbrev pub order_id : PlanOrder → ℕ
order_id o = o.id

abbrev pub sub_id : PlanSubscription → ℕ
sub_id x = x.id

-- The subscription is what the order paid for.
abbrev pub is_bought_by : PlanOrder → PlanSubscription → Bool
is_bought_by o x =
    x.user_id == o.user_id
    && x.community_id == o.community_id
    && x.plan_id == o.plan_id
    && x.payment_paise == o.amount_paise

abbrev pub is_granted : List PlanSubscription → PlanOrder → Option ℕ → Bool
is_granted xs o none = false
is_granted xs o (some i) = holds (is_bought_by o) (find_first (λ x. x.id == i) xs)

-- A paid order has its subscription, and any other none.
abbrev pub IsSettled : List PlanSubscription → PlanOrder → Type 0
IsSettled xs o =
    (is_paid_plan o.status ≡ true → is_granted xs o o.subscription_id ≡ true)
    × (is_paid_plan o.status ≡ false → o.subscription_id ≡ none)

abbrev pub shares : Option ℕ → Option ℕ → Bool
shares none b = false
shares (some i) b = is_id b i

-- Two orders with one subscription.
abbrev pub share_sub : PlanOrder → PlanOrder → Bool
share_sub a b = shares a.subscription_id b.subscription_id

-- Each paid order has bought one subscription, of its member, its community, its plan and its price, which
-- no other order has.
pub record IsPlanBook (s : PlanStore) : Type 0 where
  pub one_order : UniqueKey order_id s.orders
  pub one_sub : UniqueKey sub_id s.subscriptions
  pub settled : All (IsSettled s.subscriptions) s.orders
  pub own_sub : UniqueBy share_sub s.orders
