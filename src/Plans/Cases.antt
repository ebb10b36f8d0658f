-- ===== src/Plans/Cases.antt =====
-- The branches of `settlePlanOrder` (apps/backend/src/modules/payments/payments.service.ts).
use finskool_monorepo.Base.{ℕ, ◌≡◌, true, some, Bool-cases, Option-cases, inl, inr, Result, err}
use finskool_monorepo.Plans.{PlanOrder, Plan, PlanStore, PlanEnv, is_paid_plan, find_plan_order}
use finskool_monorepo.Plans.Settle.{
  PlanResult, missing, result_of_paid_order, grant_in_tx, settle_answer, plan_to_grant,
  settle_plan_order,
}

-- What holds of each branch holds of the call.
pub settle_cases :
    (env : PlanEnv) (id payment_id : ℕ) (s : PlanStore) (P : Result PlanResult × PlanStore → Type 0)
    → P (err missing, s)
    → ((order : PlanOrder)
        → find_plan_order id s ≡ some order
        → is_paid_plan order.status ≡ true
        → P (result_of_paid_order order payment_id s, s))
    → ((order : PlanOrder) (plan : Plan)
        → find_plan_order id s ≡ some order
        → plan_to_grant order s ≡ some plan
        → P (
          settle_answer order payment_id
              (grant_in_tx env order plan payment_id (env.others s)).0
              (grant_in_tx env order plan payment_id (env.others s)).1,
          (grant_in_tx env order plan payment_id (env.others s)).1,
        ))
    → P (settle_plan_order env id payment_id s)
unfolding settle_plan_order
settle_cases env id payment_id s P absent paid grant = elim (Option-cases (find_plan_order id s)) [
  | inl e ↦ rw (e, settle_plan_order) absent
  | inr (order, e) ↦
      rw (e, settle_plan_order)
        (elim (Bool-cases (is_paid_plan order.status)) [
          | inl p ↦ rw p (paid order e p)
          | inr n ↦ rw n (elim (Option-cases (plan_to_grant order s)) [
            | inl f ↦ rw f absent
            | inr (plan, f) ↦ rw f (grant order plan e f)
          ])
        ])
]
