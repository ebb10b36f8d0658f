-- ===== src/Plans.antt =====
-- Buying a plan of a community: `PaymentsService` of
-- apps/backend/src/modules/payments/payments.service.ts, with `recomputeActiveSubCount` of
-- lib/community-stats.ts and the rows of apps/backend/prisma/schema.prisma. Amounts are whole paise.
pub mod Months
pub mod Settle
pub mod Book
pub mod Running
pub mod Granted
pub mod Run
pub mod Cases
pub mod Kept
pub mod Calls
pub mod Longer
pub mod Again
pub mod Checkout
pub mod Webhook
mod Examples
use finskool_monorepo.Base.{
  ℕ, suc, ◌+◌, ◌*◌, Bool, true, false, not, ◌&&◌, ◌||◌, ◌==◌, ltb, leb, is_none, is_id,
  if◌then◌else◌, Option, none, some, List, [], ◌∷◌, ◌++◌, find_first, any_where, next_id, Result,
  ok, err, ErrorCode, AppError,
}
use finskool_monorepo.Billing.{GstRules, PlanPricing, price_with_gst}

-- A day of the calendar, with the month from 0.
pub record Day : Type 0 where
  pub year : ℕ
  pub month : ℕ
  pub day : ℕ

pub data PlanOrderStatus : Type 0 where
  created paid failed : PlanOrderStatus

pub record PlanCommunity : Type 0 where
  pub id : ℕ
  pub is_free : Bool
  pub deleted_at : Option ℕ
  pub active_sub_count : ℕ

pub record Plan : Type 0 where
  pub id : ℕ
  pub community_id : ℕ
  pub duration_months : ℕ
  pub price_paise : ℕ
  pub is_active : Bool

-- `base_paise` and `gst_paise` are kept when GST was charged.
pub record PlanOrder : Type 0 where
  pub id : ℕ
  pub user_id : ℕ
  pub community_id : ℕ
  pub plan_id : ℕ
  pub razorpay_order_id : ℕ
  pub razorpay_payment_id : Option ℕ
  pub amount_paise : ℕ
  pub base_paise : Option ℕ
  pub gst_paise : Option ℕ
  pub status : PlanOrderStatus
  pub subscription_id : Option ℕ
  pub created_at : ℕ

pub record PlanSubscription : Type 0 where
  pub id : ℕ
  pub user_id : ℕ
  pub community_id : ℕ
  pub plan_id : ℕ
  pub payment_paise : ℕ
  pub paid_on : ℕ
  pub valid_until : Day
  pub is_active : Bool

-- The row of the inbox that a grant saves with it.
pub record GrantNotice : Type 0 where
  pub user_id : ℕ
  pub community_id : ℕ
  pub is_new_grant : Bool
  pub subscription_id : ℕ
  pub valid_until : Day

pub record PlanStore : Type 0 where
  pub user_ids : List ℕ
  pub communities : List PlanCommunity
  pub plans : List Plan
  pub orders : List PlanOrder
  pub subscriptions : List PlanSubscription
  pub notices : List GrantNotice

-- What one call meets: the time, the day, the GST settings, the gateway's answer to a new order, what
-- others commit between its reads and its transaction, and what they commit within a grant, between the
-- read of the running subscription and the writes.
pub record PlanEnv : Type 0 where
  pub now : ℕ
  pub today : Day
  pub rules : GstRules
  pub gateway_configured : Bool
  pub new_gateway_order : Option ℕ
  pub others : PlanStore → PlanStore
  pub meanwhile : PlanStore → PlanStore

abbrev pub is_paid_plan : PlanOrderStatus → Bool
is_paid_plan PlanOrderStatus.paid = true
is_paid_plan _ = false

abbrev pub find_plan_order : ℕ → PlanStore → Option PlanOrder
find_plan_order id s = find_first (λ o. o.id == id) s.orders

abbrev pub find_by_gateway_id : ℕ → PlanStore → Option PlanOrder
find_by_gateway_id id s = find_first (λ o. o.razorpay_order_id == id) s.orders

abbrev pub find_subscription : ℕ → PlanStore → Option PlanSubscription
find_subscription id s = find_first (λ x. x.id == id) s.subscriptions

abbrev pub find_plan : ℕ → PlanStore → Option Plan
find_plan id s = find_first (λ p. p.id == id) s.plans

abbrev pub find_plan_community : ℕ → PlanStore → Option PlanCommunity
find_plan_community id s = find_first (λ c. c.id == id) s.communities

abbrev missing : AppError
missing = AppError.not_found ErrorCode.no_code

abbrev bad : AppError
bad = AppError.bad_request ErrorCode.no_code

-- ─── Starting a payment ─────────────────────────────────────────────────────

-- `!community || community.deletedAt`, then `isFree`
abbrev pub refused_community : Option PlanCommunity → Option AppError
refused_community none = some missing
refused_community (some c) =
    if not (is_none c.deleted_at) then some missing else if c.is_free then some bad else none

abbrev pub is_offered : ℕ → Plan → Bool
is_offered community_id p = p.is_active && p.community_id == community_id

abbrev pub kept_if : Bool → ℕ → Option ℕ
kept_if applies a = if applies then some a else none

unfoldable pub add_order : PlanEnv → ℕ → ℕ → ℕ → ℕ → PlanPricing → PlanStore → Result ℕ × PlanStore
add_order env user_id community_id plan_id gateway_id pricing s =
    if any_where (λ o. o.razorpay_order_id == gateway_id) s.orders
    then (err AppError.unique_violation, s)
    else (
      ok gateway_id,
      record s {
        orders =
            s.orders
            ++ record {
              id = next_id (λ o. o.id) s.orders;
              user_id = user_id;
              community_id = community_id;
              plan_id = plan_id;
              razorpay_order_id = gateway_id;
              razorpay_payment_id = none;
              amount_paise = pricing.total_paise;
              base_paise = kept_if pricing.gst_applies pricing.base_paise;
              gst_paise = kept_if pricing.gst_applies pricing.gst_paise;
              status = PlanOrderStatus.created;
              subscription_id = none;
              created_at = env.now;
            }
              ∷ [];
      },
    )

-- Razorpay rejects an order below one rupee.
abbrev pub min_order_paise : ℕ
min_order_paise = 100

abbrev pub order_plan : PlanEnv → ℕ → ℕ → Plan → PlanStore → Result ℕ × PlanStore
order_plan env user_id community_id plan s =
    let pricing = price_with_gst plan.price_paise env.rules in
    if ltb pricing.total_paise min_order_paise
    then (err bad, s)
    else if not env.gateway_configured
    then (err (AppError.unavailable ErrorCode.payments_not_configured), s)
    else elim env.new_gateway_order [
      | none ↦ (err (AppError.bad_gateway ErrorCode.payment_gateway_error), s)
      | some gateway_id ↦
          add_order env user_id community_id plan.id gateway_id pricing (env.others s)
    ]

-- `createOrder`: the gateway's id of the new order.
unfoldable pub create_plan_order : PlanEnv → ℕ → ℕ → ℕ → PlanStore → Result ℕ × PlanStore
unfolding add_order price_with_gst
create_plan_order env user_id community_id plan_id s =
    elim (refused_community (find_plan_community community_id s)) [
      | some e ↦ (err e, s)
      | none ↦ elim (find_plan plan_id s) [
        | none ↦ (err missing, s)
        | some plan ↦
            if is_offered community_id plan
            then order_plan env user_id community_id plan s
            else (err missing, s)
      ]
    ]
