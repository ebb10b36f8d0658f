-- ===== src/Plans/Webhook.antt =====
-- Deliveries of the gateway over both sets of tables: `handleWebhook` of
-- apps/backend/src/modules/services/services.payments.ts with `settlePlanPurchase` in its place,
-- and the receipt that follows the grant of a plan, in it and in `verifyPayment`.
pub mod Delivered
use finskool_monorepo.Base.{
  ℕ, Bool, true, false, not, ◌&&◌, ◌||◌, ◌==◌, if◌then◌else◌, Option, none, some, any_where,
  is_none, Result, ok, err,
}
use finskool_monorepo.Payments.Receipts.{issue_plan_receipt}
use finskool_monorepo.Payments.{PayStore, PayEnv}
use finskool_monorepo.Payments.Webhook.{WebhookEventType, WebhookPayload, is_event, handle_webhook}
use finskool_monorepo.Plans.{
  PlanOrder, PlanSubscription, PlanStore, PlanEnv, is_paid_plan, find_plan_order,
  find_by_gateway_id,
}
use finskool_monorepo.Plans.Settle.{
  PlanResult, verify_payment, settle_plan_purchase, grant_in_tx, plan_to_grant, is_wrong_amount,
}

pub record MoneyStore : Type 0 where
  pub pay : PayStore
  pub plans : PlanStore

abbrev pub is_paid_event : WebhookEventType → Bool
is_paid_event WebhookEventType.order_paid = true
is_paid_event WebhookEventType.payment_captured = true
is_paid_event _ = false

abbrev pub is_processed : ℕ → PayStore → Bool
is_processed event_id s = any_where (λ e. is_event event_id e && e.processed) s.webhook_events

-- What the delivery does to the plans, when it comes to `settlePlanPurchase`.
abbrev pub plans_after : PlanEnv → Bool → ℕ → WebhookPayload → MoneyStore → PlanStore
plans_after env signature_valid event_id p s =
    if not signature_valid || is_processed event_id s.pay || not (is_paid_event p.event)
    then s.plans
    else elim p.order_id [
      | none ↦ s.plans
      | some order_id ↦ elim p.payment_id [
        | none ↦ s.plans
        | some payment_id ↦ (settle_plan_purchase env order_id payment_id p.amount_paise s.plans).1
      ]
    ]

-- The rest of the call is told what `settlePlanPurchase` answers.
abbrev pub with_plans : PlanEnv → PlanStore → PayEnv → PayEnv
with_plans plan_env plans env = record env {
  plan_purchase = λ order_id payment_id amount.
      (settle_plan_purchase plan_env order_id payment_id amount plans).0;
}

-- The order that a call of `settlePlanOrder` grants itself: a receipt is issued for it after the commit.
abbrev pub granted_of : PlanOrder → Result (Option PlanSubscription) → Option PlanOrder
granted_of order (ok (some x)) = some order
granted_of order _ = none

unfoldable pub granted_order : PlanEnv → ℕ → ℕ → PlanStore → Option PlanOrder
unfolding grant_in_tx
granted_order env id payment_id s = elim (find_plan_order id s) [
  | none ↦ none
  | some order ↦ if is_paid_plan order.status then none else elim (plan_to_grant order s) [
    | none ↦ none
    | some plan ↦ granted_of order (grant_in_tx env order plan payment_id (env.others s)).0
  ]
]

-- The same of `settlePlanPurchase`.
unfoldable pub granted_purchase : PlanEnv → ℕ → ℕ → Option ℕ → PlanStore → Option PlanOrder
unfolding granted_order
granted_purchase env gateway_id payment_id paid s = elim (find_by_gateway_id gateway_id s) [
  | none ↦ none
  | some order ↦
      if is_wrong_amount paid order then none else granted_order env order.id payment_id s
]

-- GST was charged on top of the price.
abbrev pub is_taxed : PlanOrder → Bool
is_taxed o = not (is_none o.base_paise) && not (is_none o.gst_paise)

abbrev pub with_receipt : PayEnv → Option PlanOrder → PayStore → PayStore
with_receipt env none s = s
with_receipt env (some order) s = issue_plan_receipt env order.id (is_taxed order) s

-- `verifyPayment` with what follows its commit, over both sets of tables.
unfoldable pub verify_plan :
    PayEnv
    → PlanEnv
    → Bool
    → (user_id gateway_id payment_id : ℕ) → MoneyStore
    → Result PlanResult × MoneyStore
unfolding verify_payment granted_order issue_plan_receipt
verify_plan env plan_env signature_valid user_id gateway_id payment_id s =
    let (answer, plans) =
      verify_payment plan_env signature_valid user_id gateway_id payment_id s.plans in
    let granted : Option PlanOrder = elim (find_by_gateway_id gateway_id s.plans) [
      | none ↦ none
      | some order ↦
          if not (order.user_id == user_id) || not signature_valid
          then none
          else granted_order plan_env order.id payment_id s.plans
    ] in
    (answer, record { pay = with_receipt env granted s.pay; plans = plans })

-- The order whose receipt the delivery issues.
abbrev pub receipt_due : PlanEnv → Bool → ℕ → WebhookPayload → MoneyStore → Option PlanOrder
receipt_due env signature_valid event_id p s =
    if not signature_valid || is_processed event_id s.pay || not (is_paid_event p.event)
    then none
    else elim p.order_id [
      | none ↦ none
      | some order_id ↦ elim p.payment_id [
        | none ↦ none
        | some payment_id ↦ granted_purchase env order_id payment_id p.amount_paise s.plans
      ]
    ]

unfoldable pub deliver : PayEnv → PlanEnv → Bool → ℕ → WebhookPayload → MoneyStore → ℕ × MoneyStore
unfolding handle_webhook settle_plan_purchase granted_purchase issue_plan_receipt
deliver env plan_env signature_valid event_id p s =
    let (status, pay) =
      handle_webhook (with_plans plan_env s.plans env) signature_valid event_id p s.pay in
    (
      status,
      record {
        pay = with_receipt env (receipt_due plan_env signature_valid event_id p s) pay;
        plans = plans_after plan_env signature_valid event_id p s;
      },
    )
