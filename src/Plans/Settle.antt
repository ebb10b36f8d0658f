-- ===== src/Plans/Settle.antt =====
-- Granting a plan for a paid order: `verifyPayment`, `settlePlanOrder` and `resultOfPaidOrder` of
-- apps/backend/src/modules/payments/payments.service.ts, and `settlePlanPurchase` of
-- modules/services/services.payments.ts, on the tables of plans. The receipt that follows the commit
-- counts in the tables of the invoices, and is in Plans/Webhook; the e-mail, the live event and the push
-- are left out.
use finskool_monorepo.Base.{
  ℕ, Bool, true, false, not, ◌&&◌, ◌||◌, ◌==◌, leb, is_none, is_id, includes, if◌then◌else◌, Option,
  none, some, List, [], ◌∷◌, ◌++◌, find_first, find_many, any_where, count_where, update_where,
  length, map, next_id, Result, ok, err, ErrorCode, AppError,
}
use finskool_monorepo.Plans.{
  Day, PlanOrderStatus, Plan, PlanOrder, PlanSubscription, PlanStore, PlanEnv, is_paid_plan,
  find_plan_order, find_by_gateway_id, find_subscription, find_plan, find_plan_community,
}
use finskool_monorepo.Plans.Months.{day_key, add_months}

pub record PlanResult : Type 0 where
  pub subscription_id : ℕ
  pub community_id : ℕ
  pub plan_id : ℕ
  pub payment_paise : ℕ
  pub valid_until : Day
  pub is_active : Bool

abbrev pub missing : AppError
missing = AppError.not_found ErrorCode.no_code

abbrev pub already_paid : AppError
already_paid = AppError.conflict ErrorCode.order_already_paid

abbrev pub result_of : ℕ → ℕ → PlanSubscription → PlanResult
result_of community_id plan_id x = record {
  subscription_id = x.id;
  community_id = community_id;
  plan_id = plan_id;
  payment_paise = x.payment_paise;
  valid_until = x.valid_until;
  is_active = x.is_active;
}

-- Only for the payment that paid the order.
unfoldable pub result_of_paid_order : PlanOrder → ℕ → PlanStore → Result PlanResult
result_of_paid_order order payment_id s =
    if not (is_id order.razorpay_payment_id payment_id)
    then err already_paid
    else elim order.subscription_id [
      | none ↦ err already_paid
      | some id ↦ elim (find_subscription id s) [
        | none ↦ err missing
        | some x ↦ ok (result_of order.community_id order.plan_id x)
      ]
    ]

-- ─── The members who have access ────────────────────────────────────────────

abbrev pub has_access_on : Day → ℕ → PlanSubscription → Bool
has_access_on today community_id x =
    x.community_id == community_id && x.is_active && leb (day_key today) (day_key x.valid_until)

-- `groupBy` on the users: each once.
unfoldable pub distinct : List ℕ → List ℕ
distinct [] = []
distinct (a ∷ xs) = let rest = distinct xs in if includes a rest then rest else a ∷ rest

unfoldable pub recompute_active_sub_count : Day → ℕ → PlanStore → PlanStore
unfolding distinct find_many
recompute_active_sub_count today community_id s =
    let users =
      distinct
        (map (λ x. x.user_id) (find_many (has_access_on today community_id) s.subscriptions)) in
    record s {
      communities =
          update_where (λ c. c.id == community_id)
            (λ c. record c { active_sub_count = length users }) s.communities;
    }

-- ─── A grant ────────────────────────────────────────────────────────────────

abbrev pub is_current : ℕ → ℕ → PlanSubscription → Bool
is_current user_id community_id x =
    x.user_id == user_id && x.community_id == community_id && x.is_active

-- The end of the running access, or today.
abbrev pub base_day : Day → Option PlanSubscription → Day
base_day today none = today
base_day today (some x) =
    if leb (day_key today) (day_key x.valid_until) then x.valid_until else today

abbrev pub end_subscription :
    Option PlanSubscription → List PlanSubscription → List PlanSubscription
end_subscription none xs = xs
end_subscription (some c) xs =
    update_where (λ x. x.id == c.id) (λ x. record x { is_active = false }) xs

abbrev pub is_claimable : ℕ → PlanOrder → Bool
is_claimable id o = o.id == id && not (is_paid_plan o.status)

abbrev pub claim_order : ℕ → PlanOrder → PlanOrder
claim_order payment_id o = record o {
  status = PlanOrderStatus.paid;
  razorpay_payment_id = some payment_id;
}

abbrev pub current_of : PlanOrder → PlanStore → Option PlanSubscription
current_of order s = find_first (is_current order.user_id order.community_id) s.subscriptions

-- The rows that a grant writes, once the order is claimed and the running subscription read.
unfoldable pub grant_plan :
    PlanEnv → PlanOrder → Plan → Option PlanSubscription → PlanStore → PlanSubscription × PlanStore
unfolding add_months recompute_active_sub_count
grant_plan env order plan current s =
    let subscription : PlanSubscription = record {
      id = next_id (λ x. x.id) s.subscriptions;
      user_id = order.user_id;
      community_id = order.community_id;
      plan_id = plan.id;
      payment_paise = order.amount_paise;
      paid_on = env.now;
      valid_until = add_months (base_day env.today current) plan.duration_months;
      is_active = true;
    } in
    let written : PlanStore = record s {
      subscriptions = end_subscription current s.subscriptions ++ subscription ∷ [];
      orders =
          update_where (λ o. o.id == order.id)
            (λ o. record o { subscription_id = some subscription.id }) s.orders;
    } in
    let counted = recompute_active_sub_count env.today order.community_id written in
    (
      subscription,
      record counted {
        notices =
            s.notices
            ++ record {
              user_id = order.user_id;
              community_id = order.community_id;
              is_new_grant = is_none current;
              subscription_id = subscription.id;
              valid_until = subscription.valid_until;
            }
              ∷ [];
      },
    )

-- The transaction: nothing when the order is paid by now. A payment that paid another order breaks the
-- unique key on it. Only the order's row is locked: the running subscription is read before what others
-- commit `meanwhile`, and the claim, which nobody can come between, stands with the writes.
unfoldable pub grant_in_tx :
    PlanEnv → PlanOrder → Plan → ℕ → PlanStore → Result (Option PlanSubscription) × PlanStore
unfolding grant_plan
grant_in_tx env order plan payment_id before =
    let s = env.meanwhile before in
    if count_where (is_claimable order.id) s.orders == 0
    then (ok none, s)
    else if any_where (λ o. is_id o.razorpay_payment_id payment_id && not (o.id == order.id))
        s.orders
    then (err AppError.unique_violation, s)
    else (let claimed : PlanStore = record s {
      orders = update_where (is_claimable order.id) (claim_order payment_id) s.orders;
    } in
        let (subscription, after) = grant_plan env order plan (current_of order before) claimed in
        (ok (some subscription), after))

-- The answer, from the store that the transaction left.
unfoldable pub settle_answer :
    PlanOrder → ℕ → Result (Option PlanSubscription) → PlanStore → Result PlanResult
unfolding result_of_paid_order
settle_answer order payment_id (err e) s = err e
settle_answer order payment_id (ok (some x)) s = ok (result_of order.community_id order.plan_id x)
settle_answer order payment_id (ok none) s = elim (find_plan_order order.id s) [
  | none ↦ err AppError.record_missing
  | some fresh ↦ result_of_paid_order fresh payment_id s
]

-- The plan, the community and the member must still be there.
abbrev pub plan_to_grant : PlanOrder → PlanStore → Option Plan
plan_to_grant order s =
    if is_none (find_plan_community order.community_id s) || not (includes order.user_id s.user_ids)
    then none
    else find_plan order.plan_id s

unfoldable pub settle_plan_order : PlanEnv → ℕ → ℕ → PlanStore → Result PlanResult × PlanStore
unfolding result_of_paid_order grant_in_tx settle_answer
settle_plan_order env id payment_id s = elim (find_plan_order id s) [
  | none ↦ (err missing, s)
  | some order ↦
      if is_paid_plan order.status
      then (result_of_paid_order order payment_id s, s)
      else elim (plan_to_grant order s) [
        | none ↦ (err missing, s)
        | some plan ↦
            let (granted, after) = grant_in_tx env order plan payment_id (env.others s) in
            (settle_answer order payment_id granted after, after)
      ]
]

-- ─── The two reports of a payment ───────────────────────────────────────────

unfoldable pub verify_payment :
    PlanEnv → Bool → ℕ → ℕ → ℕ → PlanStore → Result PlanResult × PlanStore
unfolding settle_plan_order
verify_payment env signature_valid user_id gateway_id payment_id s =
    elim (find_by_gateway_id gateway_id s) [
      | none ↦ (err missing, s)
      | some order ↦
          if not (order.user_id == user_id)
          then (err missing, s)
          else if not signature_valid
          then (err (AppError.bad_request ErrorCode.payment_signature_invalid), s)
          else settle_plan_order env order.id payment_id s
    ]

abbrev pub swallow_conflict : Result PlanResult → Result Bool
swallow_conflict (ok _) = ok true
swallow_conflict (err (AppError.conflict _)) = ok true
swallow_conflict (err e) = err e

abbrev pub is_wrong_amount : Option ℕ → PlanOrder → Bool
is_wrong_amount none order = false
is_wrong_amount (some paid) order = not (paid == order.amount_paise)

-- The webhook's side: whether the order was one for a plan.
unfoldable pub settle_plan_purchase :
    PlanEnv → ℕ → ℕ → Option ℕ → PlanStore → Result Bool × PlanStore
unfolding settle_plan_order
settle_plan_purchase env gateway_id payment_id paid s = elim (find_by_gateway_id gateway_id s) [
  | none ↦ (ok false, s)
  | some order ↦
      if is_wrong_amount paid order
      then (ok true, s)
      else (let (answer, after) = settle_plan_order env order.id payment_id s in
          (swallow_conflict answer, after))
]
