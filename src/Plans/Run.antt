-- ===== src/Plans/Run.antt =====
-- The calls on plan orders, one after the other: the routes of
-- apps/backend/src/modules/payments/payments.routes.ts, the checkout page and the webhook.
use finskool_monorepo.Base.{ℕ, Bool, Option, List, [], ◌∷◌}
use finskool_monorepo.Plans.{PlanStore, PlanEnv, create_plan_order}
use finskool_monorepo.Plans.Settle.{settle_plan_order, verify_payment, settle_plan_purchase}

pub data PlanCall : Type 0 where
  begin_plan : (user_id community_id plan_id : ℕ) → PlanCall
  confirm_plan : (signature_valid : Bool) (user_id gateway_id payment_id : ℕ) → PlanCall
  resume_plan : (order_id payment_id : ℕ) → PlanCall
  deliver_paid : (gateway_id payment_id : ℕ) → Option ℕ → PlanCall

unfoldable pub serve_plan : PlanEnv → PlanCall → PlanStore → PlanStore
serve_plan env (begin_plan u c p) s = (create_plan_order env u c p s).1
serve_plan env (confirm_plan v u o p) s = (verify_payment env v u o p s).1
serve_plan env (resume_plan o p) s = (settle_plan_order env o p s).1
serve_plan env (deliver_paid o p amount) s = (settle_plan_purchase env o p amount s).1

unfoldable pub serve_plans : List (PlanEnv × PlanCall) → PlanStore → PlanStore
unfolding serve_plan
serve_plans [] s = s
serve_plans ((env, c) ∷ cs) s = serve_plans cs (serve_plan env c s)
